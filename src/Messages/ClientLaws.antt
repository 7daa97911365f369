-- ===== src/Messages/ClientLaws.antt =====
-- The message of a client survives the way to the server.
use sik_screen_worms.Prelude.{
  ℕ, zero, suc, ◌+◌, ◌-◌, ◌^◌, ◌≤◌, ◌<◌, ◌≡◌, refl, sym, ap, ◌∙◌, arith, some, List, [], ◌∷◌, ◌++◌,
  length, drop, replicate, length-append, append_assoc_three, append_assoc_four, ◌==◌,
  if◌then◌else◌, drop-append, inl, inr, Bool-cases,
}
use mathlib.Core.Path.{ap₂}
use sik_screen_worms.Memory.{◌>>=◌, write_at, read_at, strlen, be_bytes}
use sik_screen_worms.Memory.Laws.{
  write_at_lem, write_field, read_at_lem, split_at, IsText, strlen_lem,
}
use sik_screen_worms.Memory.Numbers.{length-be_bytes}
use sik_screen_worms.Messages.{ClientMessage}
use sik_screen_worms.Messages.Client.{serialize_client_message}

-- The fields are in range, and the name is a text of at most 20 bytes in an array of 21 that is
-- filled up with zeros, as the client keeps it.
pub record IsMessage (m : ClientMessage) (name : List ℕ) : Type 0 where
  pub session : m.session_id < 2 ^ 64
  pub direction : m.turn_direction < 256
  pub event_no : m.next_expected_event_no < 2 ^ 32
  pub text : IsText name
  pub short : length name ≤ 20
  pub padded : m.player_name ≡ name ++ replicate (21 - length name) 0

-- The bytes on the wire.
abbrev pub client_bytes : ClientMessage → List ℕ → List ℕ
client_bytes m name =
    be_bytes 8 m.session_id
    ++ ((m.turn_direction ∷ []) ++ (be_bytes 4 m.next_expected_event_no ++ name))

pub length-client_bytes :
    (m : ClientMessage) (name : List ℕ) → length (client_bytes m name) ≡ 13 + length name
length-client_bytes m name = omega (
  arith,
  length-append (be_bytes 8 m.session_id)
      ((m.turn_direction ∷ []) ++ (be_bytes 4 m.next_expected_event_no ++ name)),
  length-append (be_bytes 4 m.next_expected_event_no) name,
  length-be_bytes 8 m.session_id,
  length-be_bytes 4 m.next_expected_event_no,
)

pub drop-replicate : (k n : ℕ) → k ≤ n → drop {A = ℕ} k (replicate n 0) ≡ replicate (n - k) 0
drop-replicate zero n h = ap (λ t. replicate t 0) (omega arith)
drop-replicate (suc k) zero h = absurd (omega arith)
drop-replicate (suc k) (suc n) h =
    drop-replicate k n (omega arith) ∙ ap (λ t. replicate t 0) (omega arith)

-- A name is copied into the cleared array.
pub name_stored :
    (name : List ℕ)
    → length name ≤ 20
    → write_at (replicate 21 0) 0 name ≡ some (name ++ replicate (21 - length name) 0)
name_stored name h =
    let (front, back, s, k, d) = split_at (length name) (replicate 21 0) (omega arith) in
    ap (λ t. write_at t 0 name) s
    ∙ write_at_lem [] front back name 0 refl k
    ∙ ap (λ t. some (name ++ t)) (d ∙ drop-replicate (length name) 21 (omega arith))

eq_nil : (xs : List ℕ) → length xs ≡ 0 → xs ≡ []
eq_nil [] e = refl
eq_nil (x ∷ xs) e = absurd (omega (arith, e))

drop_parts :
    (a b c d back : List ℕ) (n : ℕ)
    → n ≡ length a + length b + length c + length d
    → drop n (a ++ (b ++ (c ++ (d ++ back)))) ≡ back
drop_parts a b c d back n e =
    ap₂ drop
      (omega
        (arith, e, length-append a (b ++ (c ++ d)), length-append b (c ++ d), length-append c d))
      (sym (append_assoc_four a b c d back))
    ∙ drop-append (a ++ (b ++ (c ++ d))) back

module _ (m : ClientMessage) (name : List ℕ) (v : IsMessage m name) where
  abbrev session : List ℕ
  session = be_bytes 8 m.session_id

  abbrev direction : List ℕ
  direction = m.turn_direction ∷ []

  abbrev event_no : List ℕ
  event_no = be_bytes 4 m.next_expected_event_no

  name_length : strlen m.player_name ≡ some (length name)
  name_length =
      let zeros : 21 - length name ≡ suc (20 - length name) = omega (arith, v.short) in
      ap strlen (v.padded ∙ ap (λ k. name ++ replicate k 0) zeros)
      ∙ strlen_lem name (replicate (20 - length name) 0) v.text

  name_copied : read_at m.player_name 0 (length name) ≡ some name
  name_copied =
      ap (λ t. read_at t 0 (length name)) v.padded
      ∙ read_at_lem [] name (replicate (21 - length name) 0) 0 (length name) refl refl

  -- The branch on the length of the name: either way the name lands behind the fixed fields.
  name_branch :
      (b3 done : List ℕ)
      → write_at b3 13 name ≡ some done
      → (length name ≡ 0 → b3 ≡ done)
      → (if length name == 0
          then some b3
          else read_at m.player_name 0 (length name) >>= λ copied. write_at b3 13 copied)
        ≡ some done
  name_branch b3 done w empty = elim (Bool-cases (length name == 0)) [
    | inl e ↦ rw e (ap some (empty (ground arith)))
    | inr e ↦ rw (e, name_copied) w
  ]

  serialize_parts :
      (h1 h2 h3 h4 back : List ℕ)
      → length h1 ≡ 8
      → length h2 ≡ 1
      → length h3 ≡ 4
      → length h4 ≡ length name
      → serialize_client_message (h1 ++ (h2 ++ (h3 ++ (h4 ++ back)))) m
        ≡ some (client_bytes m name ++ back, 13 + length name)
  unfolding serialize_client_message
  serialize_parts h1 h2 h3 h4 back k1 k2 k3 k4 =
      let l8 : length session ≡ 8 = length-be_bytes 8 m.session_id in
      let l4 : length event_no ≡ 4 = length-be_bytes 4 m.next_expected_event_no in
      let b3 : List ℕ = (session ++ (direction ++ event_no)) ++ (h4 ++ back) in
      let w1 : write_at (h1 ++ (h2 ++ (h3 ++ (h4 ++ back)))) 0 session
          ≡ some (session ++ (h2 ++ (h3 ++ (h4 ++ back)))) =
        write_at_lem [] h1 (h2 ++ (h3 ++ (h4 ++ back))) session 0 refl (omega (arith, k1, l8)) in
      let w2 : write_at (session ++ (h2 ++ (h3 ++ (h4 ++ back)))) 8 direction
          ≡ some (session ++ (direction ++ (h3 ++ (h4 ++ back)))) =
        write_at_lem session h2 (h3 ++ (h4 ++ back)) direction 8 (sym l8) k2 in
      let w3 : write_at (session ++ (direction ++ (h3 ++ (h4 ++ back)))) 9 event_no ≡ some b3 =
        write_field session direction h3 (h4 ++ back) event_no 9 (omega (arith, l8))
          (omega (arith, k3, l4))
        ∙ ap some (sym (append_assoc_three session direction event_no (h4 ++ back))) in
      let regroup : (session ++ (direction ++ event_no)) ++ (name ++ back)
          ≡ client_bytes m name ++ back =
        append_assoc_three session direction event_no (name ++ back)
        ∙ sym (append_assoc_four session direction event_no name back) in
      let w4 : write_at b3 13 name ≡ some (client_bytes m name ++ back) =
        write_at_lem (session ++ (direction ++ event_no)) h4 back name 13
          (omega (arith, l8, l4, length-append session (direction ++ event_no))) k4
        ∙ ap some regroup in
      let b4 = name_branch b3 (client_bytes m name ++ back) w4 λ e.
        ap (λ t. (session ++ (direction ++ event_no)) ++ (t ++ back))
          (eq_nil h4 (k4 ∙ e) ∙ sym (eq_nil name e))
        ∙ regroup in
      rw (w1, w2, w3, name_length, b4)

  -- The serializer writes the bytes on the wire and leaves the rest of the buffer alone.
  pub serialize_client_message_lem :
      (buffer : List ℕ)
      → 13 + length name ≤ length buffer
      → serialize_client_message buffer m
        ≡ some (client_bytes m name ++ drop (13 + length name) buffer, 13 + length name)
  serialize_client_message_lem buffer room =
      let (h1, r1, s1, k1, _) = split_at 8 buffer (omega arith) in
      let n1 : length buffer ≡ 8 + length r1 =
        omega (arith, ap length s1, length-append h1 r1, k1) in
      let (h2, r2, s2, k2, _) = split_at 1 r1 (omega arith) in
      let n2 : length r1 ≡ 1 + length r2 = omega (arith, ap length s2, length-append h2 r2, k2) in
      let (h3, r3, s3, k3, _) = split_at 4 r2 (omega arith) in
      let n3 : length r2 ≡ 4 + length r3 = omega (arith, ap length s3, length-append h3 r3, k3) in
      let (h4, back, s4, k4, _) = split_at (length name) r3 (omega arith) in
      let shape : buffer ≡ h1 ++ (h2 ++ (h3 ++ (h4 ++ back))) =
        s1 ∙ ap (◌++◌ h1) (s2 ∙ ap (◌++◌ h2) (s3 ∙ ap (◌++◌ h3) s4)) in
      ap (λ t. serialize_client_message t m) shape
      ∙ serialize_parts h1 h2 h3 h4 back k1 k2 k3 k4
      ∙ ap (λ t. some (client_bytes m name ++ t, 13 + length name))
          (sym (
            ap (drop (13 + length name)) shape
            ∙ drop_parts h1 h2 h3 h4 back (13 + length name) (omega arith)))
