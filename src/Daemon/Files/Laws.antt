-- ===== src/Daemon/Files/Laws.antt =====
-- userspace/usb-displayd.c: what is written whole, and when the ready file changes.
use mathlib.Core.List.{append_assoc, append-nil}
use mathlib.Core.Path.{subst}
use usbdisplay_stack.Common.{
  ℕ, zero, suc, ◌<◌, ◌≡◌, refl, sym, ap, ◌∙◌, ◌⊎◌, inl, inr, Bool, true, false, none, some, List,
  [], ◌∷◌, ◌++◌, arith, leb, ◌==◌, if◌then◌else◌, Bool-cases, Status-cases, Errno, Status, success,
  failure, ◌then_try◌, length, take, drop, take-append-drop, eio, enametoolong,
}
use usbdisplay_stack.Daemon.Files.{
  write_all, contents_size, fill_temporary, remove_temporary, finish_ready_file, publish_ready_file,
  Written, Files, ReadyCalls, wrote, cut_off, refused,
}

-- The whole buffer has been written, or a part of it and an error is returned.
pub data WholeOrFailed (sent : List ℕ) (out : List ℕ × Status) : Type 0 where
  whole : out ≡ (sent, success) → WholeOrFailed sent out
  partial :
      (kept missing : List ℕ) (e : Errno)
      → sent ≡ kept ++ missing
      → 0 < length missing
      → out ≡ (kept, failure e)
      → WholeOrFailed sent out

write_all-nil : (answers : List Written) (out : List ℕ) → write_all answers [] out ≡ (out, success)
unfolding write_all
write_all-nil [] out = ap (λ xs. (xs, success)) (append-nil out)
write_all-nil (wrote n ∷ answers) out = refl
write_all-nil (cut_off ∷ answers) out = refl
write_all-nil (refused e ∷ answers) out = refl

more :
    (b : ℕ) (buffer : List ℕ) (out rest : List ℕ × Status)
    → (if length (b ∷ buffer) == 0 then out else rest) ≡ rest
more b buffer out rest = ground arith

some_taken : (n : ℕ) (out rest : List ℕ × Status) → (if suc n == 0 then out else rest) ≡ rest
some_taken n out rest = ground arith

-- Short writes and interruptions lose nothing and write nothing twice.
pub write_all-WholeOrFailed :
    (answers : List Written) (buffer out : List ℕ)
    → WholeOrFailed (out ++ buffer) (write_all answers buffer out)
unfolding write_all
write_all-WholeOrFailed [] buffer out = whole refl
write_all-WholeOrFailed (a ∷ answers) [] out =
    whole (write_all-nil (a ∷ answers) out ∙ ap (λ xs. (xs, success)) (sym (append-nil out)))
write_all-WholeOrFailed (cut_off ∷ answers) (b ∷ buffer) out =
    subst (WholeOrFailed (out ++ (b ∷ buffer)))
      (sym (more b buffer (out, success) (write_all answers (b ∷ buffer) out)))
      (write_all-WholeOrFailed answers (b ∷ buffer) out)
write_all-WholeOrFailed (refused e ∷ answers) (b ∷ buffer) out =
    partial out (b ∷ buffer) e refl (omega arith) (more b buffer (out, success) (out, failure e))
write_all-WholeOrFailed (wrote zero ∷ answers) (b ∷ buffer) out =
    partial out (b ∷ buffer) eio refl (omega arith)
      (more b buffer (out, success) (out, failure eio))
write_all-WholeOrFailed (wrote (suc n) ∷ answers) (b ∷ buffer) out =
    let rest = write_all answers (drop (suc n) (b ∷ buffer)) (out ++ take (suc n) (b ∷ buffer)) in
    let sent : (out ++ take (suc n) (b ∷ buffer)) ++ drop (suc n) (b ∷ buffer)
        ≡ out ++ (b ∷ buffer) =
      append_assoc out _ _ ∙ ap (λ xs. out ++ xs) (take-append-drop (suc n) (b ∷ buffer)) in
    subst (WholeOrFailed (out ++ (b ∷ buffer)))
      (sym (
        more b buffer (out, success) (if suc n == 0 then (out, failure eio) else rest)
        ∙ some_taken n (out, failure eio) rest))
      (subst (λ xs. WholeOrFailed xs rest) sent
        (write_all-WholeOrFailed answers (drop (suc n) (b ∷ buffer))
          (out ++ take (suc n) (b ∷ buffer))))

-- How a call of publish_ready_file ends.
pub data Outcome (c : ReadyCalls) (f : Files) (out : Files × Status) : Type 0 where
  untouched : out.1 ≡ success → c.has_path ≡ false → out.0 ≡ f → Outcome c f out
  published :
      out.1 ≡ success
      → c.has_path ≡ true
      → out.0.ready ≡ some c.contents
      → out.0.temporary ≡ none
      → Outcome c f out
  failed :
      (e : Errno)
      → out.1 ≡ failure e
      → out.0.ready ≡ f.ready
      → (out.0.temporary ≡ f.temporary) ⊎ (out.0.temporary ≡ none) ⊎ (c.unlinked ≡ false)
      → Outcome c f out

-- A text that counts as written is there whole.
fill_temporary_whole :
    (c : ReadyCalls) → (fill_temporary c).1 ≡ success → (fill_temporary c).0 ≡ c.contents
unfolding fill_temporary
fill_temporary_whole c = elim (Bool-cases (leb contents_size (length c.contents))) [
  | inl e ↦ rw e (λ h. cc)
  | inr e ↦ rw e (good (write_all-WholeOrFailed c.writes c.contents []))
]
  where
    good :
        {out : List ℕ × Status}
        → WholeOrFailed c.contents out
        → out.1 ≡ success
        → out.0 ≡ c.contents
    good (whole e) h = ap (λ p. p.0) e
    good (partial kept missing x s m e) h = absurd (apart (sym h ∙ ap (λ p. p.1) e))
      where
        apart : success ≡ failure x → ⊥
        apart q = cc

first_succeeds : (a b c : Status) → (a then_try b then_try c) ≡ success → a ≡ success
first_succeeds success b c h = refl
first_succeeds (failure e) b c h = h

finish_ready_file-Outcome :
    (c : ReadyCalls) (f : Files) → c.has_path ≡ true → Outcome c f (finish_ready_file c f)
unfolding finish_ready_file remove_temporary
finish_ready_file-Outcome c f path =
    let all = (fill_temporary c).1 then_try c.closed then_try c.renamed in
    elim (Status-cases all) [
      | inl e ↦ subst (Outcome c f) (sym (ends e)) (
          published refl path
            (ap some
              (fill_temporary_whole c (first_succeeds (fill_temporary c).1 c.closed c.renamed e)))
            refl)
      | inr (x, e) ↦
          subst (Outcome c f) (sym (ends e))
            (failed x refl (left (c.unlinked)).0 (left (c.unlinked)).1)
    ]
  where
    close_off : Status → Files × Status
    close_off o = elim o [
      | success ↦ (record { ready = some (fill_temporary c).0; temporary = none }, success)
      | failure e ↦
          (remove_temporary c (record f { temporary = some (fill_temporary c).0 }), failure e)
    ]

    ends :
        {o : Status}
        → ((fill_temporary c).1 then_try c.closed then_try c.renamed) ≡ o
        → finish_ready_file c f ≡ close_off o
    ends e = ap close_off e

    left :
        (b : Bool)
        → let f' = remove_temporary c (record f { temporary = some (fill_temporary c).0 }) in
          (f'.ready ≡ f.ready)
          × ((f'.temporary ≡ f.temporary) ⊎ (f'.temporary ≡ none) ⊎ (c.unlinked ≡ false))
    left b = ground arith

-- The ready file changes only when the whole text stands in it. A call that fails leaves the file as it
-- was, and no temporary file that can be unlinked.
pub publish_ready_file-Outcome : (c : ReadyCalls) (f : Files) → Outcome c f (publish_ready_file c f)
unfolding publish_ready_file
publish_ready_file-Outcome c f = elim (Bool-cases c.has_path) [
  | inr e ↦ simp e (untouched refl e refl)
  | inl e ↦ elim (Bool-cases c.path_fits) [
    | inr g ↦ simp (e, g) (failed enametoolong refl refl (inl refl))
    | inl g ↦ elim (Status-cases c.opened) [
      | inr (x, h) ↦ simp (e, g, h) (failed x refl refl (inl refl))
      | inl h ↦ simp (e, g, h) (finish_ready_file-Outcome c f e)
    ]
  ]
]
