-- ===== src/Actions/AccessUnit/Appending.antt =====
-- backends/actions-micro/actions_micro_backend.c: appending while memory is granted.
use mathlib.Core.List.{append_assoc}
use mathlib.Core.Path.{subst}
use usbdisplay_stack.Common.{
  ℕ, ◌+◌, ◌≤◌, ◌<◌, ◌≡◌, refl, sym, ap, ◌∙◌, inl, inr, Bool, true, false, List, [], ◌∷◌, ◌++◌,
  arith, ltb, leb, Bool-cases, Status, success, length, length-append,
}
use usbdisplay_stack.Actions.AccessUnit.{
  max_encoded_bytes, next_grant, rest_grants, grown_capacity, reserve_buffer, append_bytes,
  append_annex_b_nal, Buffer,
}
use usbdisplay_stack.Actions.AccessUnit.Laws.{reserve_buffer_lem}
use usbdisplay_stack.Actions.AccessUnit.Splitting.{coded, code_size}

abbrev pub AllGranted : List Bool → Type 0
AllGranted [] = Unit {0}
AllGranted (g ∷ grants) = (g ≡ true) × AllGranted grants

next_grant-AllGranted : (g : List Bool) → AllGranted g → next_grant g ≡ true
next_grant-AllGranted [] h = refl
next_grant-AllGranted (x ∷ g) h = h.0

rest_grants-AllGranted : (g : List Bool) → AllGranted g → AllGranted (rest_grants g)
rest_grants-AllGranted [] h = h
rest_grants-AllGranted (x ∷ g) h = h.1

-- What is appended is there, within the limit, and the memory stays granted.
pub record Appended (b : Buffer) (added : List ℕ) (out : Buffer × List Bool × Status) : Type 0 where
  pub whole : out.0.bytes ≡ b.bytes ++ added
  pub bounded : out.0.capacity ≤ max_encoded_bytes
  pub granted : AllGranted out.1
  pub ok : out.2 ≡ success

reserve_buffer-AllGranted :
    (grants : List Bool) (b : Buffer) (required maximum : ℕ)
    → AllGranted grants
    → AllGranted (reserve_buffer grants b required maximum).1
unfolding reserve_buffer
reserve_buffer-AllGranted grants b required maximum h =
    elim (Bool-cases (leb required b.capacity)) [
      | inl e ↦ rw e h
      | inr e ↦ elim (Bool-cases (ltb (grown_capacity b.capacity required maximum) required)) [
        | inl f ↦ rw (e, f) h
        | inr f ↦ rw (e, f, next_grant-AllGranted grants h) (rest_grants-AllGranted grants h)
      ]
    ]

reserve_buffer_granted :
    (grants : List Bool) (b : Buffer) (required : ℕ)
    → AllGranted grants
    → b.capacity ≤ max_encoded_bytes
    → required ≤ max_encoded_bytes
    → (reserve_buffer grants b required max_encoded_bytes).2 ≡ success
reserve_buffer_granted grants b required g c h =
    elim (reserve_buffer_lem grants b required max_encoded_bytes (omega arith) c).3 [
      | inl (ok, room) ↦ ok
      | inr (inl (same, large, e)) ↦ absurd (large_not large)
      | inr (inr (same, small, denied, e)) ↦
          absurd (granted_not (sym denied ∙ next_grant-AllGranted grants g))
    ]
  where
    large_not : max_encoded_bytes < required → ⊥
    large_not q = omega arith

    granted_not : false ≡ true → ⊥
    granted_not q = cc

append_bytes_reserved :
    (grants : List Bool) (b : Buffer) (added : List ℕ)
    → let r = reserve_buffer grants b (length b.bytes + length added) max_encoded_bytes in
      r.2 ≡ success
      → append_bytes grants b added ≡ (record r.0 { bytes = r.0.bytes ++ added }, r.1, success)
unfolding append_bytes
append_bytes_reserved grants b added ok = rw (ok, append_bytes)

pub append_bytes-Appended :
    (grants : List Bool) (b : Buffer) (added : List ℕ)
    → AllGranted grants
    → b.capacity ≤ max_encoded_bytes
    → length b.bytes + length added ≤ max_encoded_bytes
    → Appended b added (append_bytes grants b added)
append_bytes-Appended grants b added g c h =
    let n = length b.bytes + length added in
    let (same, grows, bounded, cases) =
      reserve_buffer_lem grants b n max_encoded_bytes (omega arith) c in
    subst (Appended b added)
      (sym (append_bytes_reserved grants b added (reserve_buffer_granted grants b n g c h)))
      (record {
        whole = ap (λ xs. xs ++ added) same;
        bounded = bounded;
        granted = reserve_buffer-AllGranted grants b n max_encoded_bytes g;
        ok = refl;
      })

append_annex_b_nal-coded :
    (grants : List Bool) (b : Buffer) (long : Bool) (header : ℕ) (body : List ℕ)
    → let code = append_bytes grants b (0 ∷ 0 ∷ 0 ∷ 1 ∷ []) in
      code.2 ≡ success
      → append_annex_b_nal grants b (coded long (header ∷ body)) (code_size long)
        ≡ append_bytes code.1 code.0 (header ∷ body)
unfolding append_annex_b_nal
append_annex_b_nal-coded grants b true header body ok =
    let longer : leb (length (0 ∷ 0 ∷ 0 ∷ 1 ∷ header ∷ body)) 4 ≡ false = ground arith in
    rw (longer, append_annex_b_nal) (rw ok)
append_annex_b_nal-coded grants b false header body ok =
    let longer : leb (length (0 ∷ 0 ∷ 1 ∷ header ∷ body)) 3 ≡ false = ground arith in
    rw (longer, append_annex_b_nal) (rw ok)

-- A NAL unit that is not empty is appended behind a start code of four bytes, whichever it came with.
pub append_annex_b_nal-Appended :
    (grants : List Bool) (b : Buffer) (long : Bool) (header : ℕ) (body : List ℕ)
    → AllGranted grants
    → b.capacity ≤ max_encoded_bytes
    → length b.bytes + (5 + length body) ≤ max_encoded_bytes
    → Appended b
        (0 ∷ 0 ∷ 0 ∷ 1 ∷ header ∷ body)
        (append_annex_b_nal grants b (coded long (header ∷ body)) (code_size long))
append_annex_b_nal-Appended grants b long header body g c h =
    let code = append_bytes grants b (0 ∷ 0 ∷ 0 ∷ 1 ∷ []) in
    let first = append_bytes-Appended grants b (0 ∷ 0 ∷ 0 ∷ 1 ∷ []) g c (omega arith) in
    let longer = length-append b.bytes (0 ∷ 0 ∷ 0 ∷ 1 ∷ []) in
    let second =
      append_bytes-Appended code.1 code.0 (header ∷ body) first.granted first.bounded
        (omega (arith, ap length first.whole, longer)) in
    let nal = 0 ∷ 0 ∷ 0 ∷ 1 ∷ header ∷ body in
    subst (Appended b nal) (sym (append_annex_b_nal-coded grants b long header body first.ok))
      (record {
        whole =
            second.whole
            ∙ ap (λ xs. xs ++ (header ∷ body)) first.whole
            ∙ append_assoc b.bytes (0 ∷ 0 ∷ 0 ∷ 1 ∷ []) (header ∷ body);
        bounded = second.bounded;
        granted = second.granted;
        ok = second.ok;
      })
