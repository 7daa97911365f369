-- ===== src/LinkedList.antt =====
-- common/list.c on an explicit heap: a cell for each node, in the order of their allocation, which
-- is `none` once the node is freed. A pointer to a node is its index, NULL is `none`. A fault,
-- `none` in the results, is the use of NULL or of a freed node.
pub mod Links
pub mod Relinking
pub mod Refines
pub mod Adding
pub mod Whole
use sik_screen_worms.Prelude.{
  ℕ, zero, suc, ◌+◌, ◌-◌, ◌%◌, ◌^◌, Bool, true, false, Option, none, some, List, [], ◌∷◌, ◌++◌,
  ◌==◌, if◌then◌else◌, length, get_elem?, set,
}
use sik_screen_worms.Memory.{◌>>=◌}

pub record ListNode {ℓ} (A : Type ℓ) : Type ℓ where
  pub prev : Option ℕ
  pub next : Option ℕ
  pub element : A

pub record LinkedList : Type 0 where
  pub size : ℕ
  pub head : Option ℕ
  pub tail : Option ℕ

-- The pointers that `list_remove` writes through: those of the list, or those of a node.
pub data Place : Type 0 where
  in_list : Place
  in_node : ℕ → Place

abbrev pub points_to : Option ℕ → ℕ → Bool
points_to none node = false
points_to (some p) node = p == node

unfoldable pub list_create : LinkedList
list_create = record { size = 0; head = none; tail = none }

unfoldable pub list_size : LinkedList → ℕ
list_size list = list.size

unfoldable pub list_head : LinkedList → Option ℕ
list_head list = list.head

unfoldable pub list_tail : LinkedList → Option ℕ
list_tail list = list.tail

abbrev pub Heap {ℓ} : Type ℓ → Type ℓ
Heap A = List (Option (ListNode A))

module _ {ℓ} {A : Type ℓ} where
  -- `*node`.
  abbrev pub load : Heap A → ℕ → Option (ListNode A)
  load heap p = get_elem? heap p >>= λ cell. cell

  abbrev pub store_next : Heap A → ℕ → Option ℕ → Option (Heap A)
  store_next heap p v = load heap p >>= λ node. some (set heap p (some (record node { next = v })))

  abbrev pub store_prev : Heap A → ℕ → Option ℕ → Option (Heap A)
  store_prev heap p v = load heap p >>= λ node. some (set heap p (some (record node { prev = v })))

  abbrev pub release : Heap A → ℕ → Option (Heap A)
  release heap p = load heap p >>= λ node. some (set heap p none)

  unfoldable pub list_element : Heap A → ℕ → Option A
  list_element heap node = load heap node >>= λ n. some n.element

  unfoldable pub list_next : Heap A → ℕ → Option (Option ℕ)
  list_next heap node = load heap node >>= λ n. some n.next

  unfoldable pub list_prev : Heap A → ℕ → Option (Option ℕ)
  list_prev heap node = load heap node >>= λ n. some n.prev

  -- The node is added behind the tail. Without memory (`available` is false) nothing changes, and
  -- the result is NULL.
  unfoldable pub list_add : Bool → Heap A → LinkedList → A → Option (Heap A × LinkedList × Option ℕ)
  list_add false heap list element = some (heap, list, none)
  list_add true heap list element =
      let node = length heap in
      let size = (list.size + 1) % 2 ^ 64 in
      elim list.tail [
        | none ↦ some (
          heap ++ (some (record { prev = none; next = none; element = element }) ∷ []),
          record { size = size; head = some node; tail = some node },
          some node,
        )
        | some last ↦
            (store_next
                (heap ++ (some (record { prev = some last; next = none; element = element }) ∷ []))
                last (some node)
              >>= λ linked. some (linked, record list { size = size; tail = some node }, some node))
      ]

  -- `prev_next` and `next_prev`.
  unfoldable pub prev_next : Heap A → LinkedList → ℕ → Option Place
  prev_next heap list node =
      if points_to list.head node
      then some in_list
      else load heap node >>= λ n. n.prev >>= λ p. some (in_node p)

  unfoldable pub next_prev : Heap A → LinkedList → ℕ → Option Place
  next_prev heap list node =
      if points_to list.tail node
      then some in_list
      else load heap node >>= λ n. n.next >>= λ p. some (in_node p)

  -- `*prev_next = v` and `*next_prev = v`.
  unfoldable pub write_prev_next :
      Heap A → LinkedList → Place → Option ℕ → Option (Heap A × LinkedList)
  write_prev_next heap list in_list v = some (heap, record list { head = v })
  write_prev_next heap list (in_node p) v = store_next heap p v >>= λ h. some (h, list)

  unfoldable pub write_next_prev :
      Heap A → LinkedList → Place → Option ℕ → Option (Heap A × LinkedList)
  write_next_prev heap list in_list v = some (heap, record list { tail = v })
  write_next_prev heap list (in_node p) v = store_prev heap p v >>= λ h. some (h, list)

  unfoldable pub list_remove : Heap A → LinkedList → ℕ → Option (Heap A × LinkedList)
  unfolding prev_next next_prev write_prev_next write_next_prev
  list_remove heap list node = prev_next heap list node >>= λ a. next_prev heap list node >>= λ b.
      load heap node >>= λ n. write_prev_next heap list a n.next >>= λ r. load r.0 node >>= λ m.
      write_next_prev r.0 r.1 b m.prev >>= λ q. release q.0 node >>= λ after.
      some (after, record q.1 { size = (q.1.size + (2 ^ 64 - 1)) % 2 ^ 64 })

  -- `while (next)`, on fuel: each round frees a node, so their number is enough.
  unfoldable pub remove_loop : ℕ → Heap A → Option ℕ → Option (Heap A)
  remove_loop fuel heap none = some heap
  remove_loop zero heap (some current) = none
  remove_loop (suc fuel) heap (some current) =
      load heap current >>= λ n. release heap current >>= λ h. remove_loop fuel h n.next

  unfoldable pub list_remove_all : Heap A → LinkedList → Option (Heap A × LinkedList)
  unfolding remove_loop
  list_remove_all heap list = remove_loop (length heap) heap list.head >>= λ h.
      some (h, record { size = 0; head = none; tail = none })

  -- The loop that the callers write, from the head on and with `list_next`: the elements visited.
  unfoldable pub visit_all : ℕ → Heap A → Option ℕ → Option (List A)
  unfolding list_element list_next
  visit_all fuel heap none = some []
  visit_all zero heap (some node) = none
  visit_all (suc fuel) heap (some node) = list_element heap node >>= λ a.
      list_next heap node >>= λ next. visit_all fuel heap next >>= λ rest. some (a ∷ rest)
