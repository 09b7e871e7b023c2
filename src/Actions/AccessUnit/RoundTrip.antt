-- ===== src/Actions/AccessUnit/RoundTrip.antt =====
-- backends/actions-micro/actions_micro_backend.c: split_access_unit on a stream of NAL units.
use mathlib.Core.List.{append-nil}
use mathlib.Core.Path.{subst}
use usbdisplay_stack.Common.{
  ℕ, zero, suc, ◌+◌, ◌-◌, ◌%◌, ◌≤◌, ◌≡◌, refl, sym, ap, ◌∙◌, inl, inr, Bool, true, false, List, [],
  ◌∷◌, ◌++◌, arith, leb, ◌==◌, if◌then◌else◌, Bool-cases, Status, success, failure, length, take,
  drop, length-append, take-append_self, drop-append_self, drop-drop, eproto,
}
use usbdisplay_stack.Actions.AccessUnit.{
  max_encoded_bytes, find_start_code, nal_type_at, split_nal, split_loop, begin, split_access_unit,
  Buffer, AccessUnit,
}
use usbdisplay_stack.Actions.AccessUnit.Appending.{AllGranted}
use usbdisplay_stack.Actions.AccessUnit.Splitting.{
  coded, code_size, annex_b, stream, nals_of, Apart, Apart-tail, code_length,
  find_start_code-stream,
}
use usbdisplay_stack.Actions.AccessUnit.Steps.{or_false, split_nal_step}
use usbdisplay_stack.Actions.AccessUnit.Units.{
  configurations, pictures, any_idr, AllNals, Added-cons, Added, HasRoom,
}
use usbdisplay_stack.Actions.Wire.{byte}

byte-drop : (k i : ℕ) (d : List ℕ) → byte (drop k d) i ≡ byte d (k + i)
byte-drop zero i d = ap (byte d) (let e : i ≡ 0 + i = omega arith in e)
byte-drop (suc k) i [] = nothing i ∙ sym (nothing (suc k + i))
  where
    nothing : (j : ℕ) → byte [] j ≡ 0
    nothing zero = refl
    nothing (suc j) = refl
byte-drop (suc k) i (x ∷ d) =
    byte-drop k i d ∙ ap (byte (x ∷ d)) (let e : suc (k + i) ≡ suc k + i = omega arith in e)

-- One round of the loop that does not end it.
split_loop_step :
    (rounds : ℕ) (d : List ℕ) (start start_length next_start next_length : ℕ) (a a' : AccessUnit)
    → leb (length d) start ≡ false
    → leb (length d) (start + start_length) ≡ false
    → find_start_code d (start + start_length + 1) 0 ≡ (next_start, next_length)
    → split_nal
        (nal_type_at d (start + start_length))
        (take (next_start - start) (drop start d))
        start_length
        a
      ≡ (a', success)
    → split_loop (suc rounds) d start start_length a ≡ split_loop rounds d next_start next_length a'
unfolding split_loop
split_loop_step rounds d start start_length next_start next_length a a' before inside found cut =
    rw (before, split_loop)
      (rw inside (
        ap
          (λ p. continue p.0 p.1 (
            split_nal (nal_type_at d (start + start_length)) (take (p.0 - start) (drop start d))
              start_length a))
          found
        ∙ ap (continue next_start next_length) cut))
  where
    continue : ℕ → ℕ → AccessUnit × Status → AccessUnit × Status
    continue p q out = elim out.1 [
      | success ↦ split_loop rounds d p q out.0
      | failure x ↦ (out.0, failure x)
    ]

code_length_again :
    (units : List (Bool × List ℕ)) → code_length 0 units ≡ code_length (code_length 0 units) units
unfolding code_length
code_length_again [] = refl
code_length_again ((long, n) ∷ units) = refl

-- The bytes of a NAL unit behind its start code.
length-coded : (long : Bool) (n : List ℕ) → length (coded long n) ≡ code_size long + length n
length-coded true n = omega arith
length-coded false n = omega arith

coded_append : (long : Bool) (n xs : List ℕ) → coded long (n ++ xs) ≡ coded long n ++ xs
coded_append true n xs = refl
coded_append false n xs = refl

drop-coded :
    (long : Bool) (header : ℕ) (xs : List ℕ)
    → drop (code_size long + 1) (coded long (header ∷ xs)) ≡ xs
drop-coded true header xs = refl
drop-coded false header xs = refl

byte-coded :
    (long : Bool) (header : ℕ) (xs : List ℕ)
    → byte (coded long (header ∷ xs)) (code_size long) ≡ header
byte-coded true header xs = refl
byte-coded false header xs = refl

-- What the loop reads of the stream in the round for one NAL unit.
module _ (d : List ℕ) (start start_length header : ℕ) (body : List ℕ) (long : Bool)
    (units : List (Bool × List ℕ)) (code : start_length ≡ code_size long)
    (e : drop start d ≡ stream ((long, header ∷ body) ∷ units)) where
  behind_header : drop (start + start_length + 1) d ≡ body ++ stream units
  unfolding stream
  behind_header =
      sym (drop-drop start (code_size long + 1) (start + start_length + 1) d (omega (arith, code)))
      ∙ ap (drop (code_size long + 1)) e
      ∙ drop-coded long header (body ++ stream units)

  kind_read : nal_type_at d (start + start_length) ≡ header % 32
  unfolding stream nal_type_at
  kind_read =
      ap (λ i. byte d i % 32) (ap (λ n. start + n) code)
      ∙ ap (λ x. x % 32)
          (sym (byte-drop start (code_size long) d)
            ∙ ap (λ xs. byte xs (code_size long)) e
            ∙ byte-coded long header (body ++ stream units))

  module _ (next_start : ℕ) (at_next : next_start ≡ start + start_length + 1 + length body) where
    unit_read : take (next_start - start) (drop start d) ≡ coded long (header ∷ body)
    unfolding stream
    unit_read =
        ap (take (next_start - start)) (e ∙ coded_append long (header ∷ body) (stream units))
        ∙ take-append_self (coded long (header ∷ body)) (stream units) (next_start - start)
            (omega (arith, at_next, code, length-coded long (header ∷ body)))

    rest_read : drop next_start d ≡ stream units
    rest_read =
        sym
          (drop-drop (start + start_length + 1) (length body) next_start d (omega (arith, at_next)))
        ∙ ap (drop (length body)) behind_header
        ∙ drop-append_self body (stream units) (length body) refl

    unit_split :
        (a : AccessUnit)
        → split_nal
            (nal_type_at d (start + start_length))
            (take (next_start - start) (drop start d))
            start_length
            a
          ≡ split_nal (header % 32) (coded long (header ∷ body)) (code_size long) a
    unit_split a =
        ap (λ k. split_nal k (take (next_start - start) (drop start d)) start_length a) kind_read
        ∙ ap (λ xs. split_nal (header % 32) xs start_length a) unit_read
        ∙ ap (λ n. split_nal (header % 32) (coded long (header ∷ body)) n a) code

-- The loop over the NAL units that are left.
split_loop-Added :
    (units : List (Bool × List ℕ)) (rounds : ℕ) (d : List ℕ) (start start_length : ℕ)
    (a : AccessUnit)
    → AllNals units
    → HasRoom a (nals_of units)
    → drop start d ≡ stream units
    → length d ≡ start + length (stream units)
    → length (stream units) ≤ rounds
    → start_length ≡ code_length start_length units
    → Added a (nals_of units) (split_loop rounds d start start_length a)
unfolding stream annex_b configurations pictures any_idr code_length split_loop nal_type_at
split_loop-Added [] rounds d start start_length a wf r e l enough code =
    subst (Added a []) (sym (done rounds (omega (arith, l)))) (record {
      configured = sym (append-nil a.configuration.bytes);
      pictured = sym (append-nil a.video.bytes);
      idr = sym (or_false a.idr);
      ok = refl;
    })
  where
    done : (n : ℕ) → length d ≤ start → split_loop n d start start_length a ≡ (a, success)
    done zero h = refl
    done (suc n) h = ground arith
split_loop-Added ((long, header ∷ body) ∷ units) zero d start start_length a wf r e l enough code =
    absurd (omega (arith, length-coded long (header ∷ (body ++ stream units))))
split_loop-Added ((long, header ∷ body) ∷ units) (suc rounds) d start start_length a
      (clean, apart, wf) r e l enough code =
    let sizes = length-append body (stream units) in
    let size = length-coded long (header ∷ (body ++ stream units)) in
    let (at_next, next_length) =
      find_start_code-stream d (start + start_length + 1) 0 body units
        (behind_header d start start_length header body long units code e)
        (omega (arith, l, code, sizes, size)) clean (Apart-tail header body units apart) in
    let next_start = (find_start_code d (start + start_length + 1) 0).0 in
    let step = split_nal_step a long header body (nals_of units) r in
    let cut =
      unit_split d start start_length header body long units code e next_start at_next a
      ∙ step.reached in
    let rest =
      split_loop-Added units rounds d next_start (code_length 0 units) step.after wf step.room
        (rest_read d start start_length header body long units code e next_start at_next)
        (omega (arith, l, at_next, code, sizes, size)) (omega (arith, enough, sizes, size))
        (code_length_again units) in
    subst (Added a ((header ∷ body) ∷ nals_of units))
      (sym (
        split_loop_step rounds d start start_length next_start (code_length 0 units) a step.after
          (ground (arith, l, size)) (ground (arith, l, code, size))
          (ap (λ q. (next_start, q)) next_length) cut))
      (Added-cons a step.after (header ∷ body) (nals_of units) _ step.added rest)
split_loop-Added ((long, []) ∷ units) rounds d start start_length a (clean, apart, wf) r e l enough
      code =
    absurd clean

code_of :
    (units : List (Bool × List ℕ)) (x y : ℕ) → x ≡ code_length y units → x ≡ code_length x units
unfolding code_length
code_of [] x y h = refl
code_of ((long, n) ∷ units) x y h = h

-- When the loop succeeds, what is left to tell is whether there is any video.
split_access_unit_looped :
    (grants : List Bool) (u : ℕ) (d : List ℕ) (configuration video : Buffer)
    → let a = begin grants configuration video in
      let found = find_start_code d 0 u in
      let out = split_loop (length d) d found.0 found.1 a in
      out.1 ≡ success
      → split_access_unit grants u d configuration video
        ≡ (out.0, if length out.0.video.bytes == 0 then failure eproto else success)
unfolding split_access_unit
split_access_unit_looped grants u d configuration video looped =
    let found = find_start_code d 0 u in
    let out = split_loop (length d) d found.0 found.1 (begin grants configuration video) in
    elim (Bool-cases (length out.0.video.bytes == 0)) [
      | inl e ↦ rw (looped, split_access_unit) (rw e)
      | inr e ↦ rw (looped, split_access_unit) (rw e)
    ]

none-Apart : (units : List (Bool × List ℕ)) → Apart [] units
none-Apart [] = tt
none-Apart ((true, n) ∷ units) = tt
none-Apart ((false, n) ∷ units) = tt

-- The input is a stream of NAL units, each behind a start code of three or of four bytes, which have a
-- header byte, hold no start code behind it, and do not end with a zero in front of a start code of three
-- bytes. With memory granted and room in the buffers, SPS, PPS and SEI units are appended to the
-- configuration and all others but delimiters to the video, each behind a start code of four bytes and
-- in order; the IDR flag tells of a unit of type 5, and the call fails, with EPROTO, exactly when the
-- video buffer is empty afterwards.
pub split_access_unit_lem :
    (grants : List Bool) (u : ℕ) (units : List (Bool × List ℕ)) (configuration video : Buffer)
    → AllNals units
    → AllGranted grants
    → configuration.capacity ≤ max_encoded_bytes
    → video.capacity ≤ max_encoded_bytes
    → length configuration.bytes + length (annex_b (configurations (nals_of units)))
      ≤ max_encoded_bytes
    → length video.bytes + length (annex_b (pictures (nals_of units))) ≤ max_encoded_bytes
    → let (a, result) = split_access_unit grants u (stream units) configuration video in
      (a.configuration.bytes ≡ configuration.bytes ++ annex_b (configurations (nals_of units)))
      × (a.video.bytes ≡ video.bytes ++ annex_b (pictures (nals_of units)))
      × (a.idr ≡ any_idr (nals_of units))
      × (result ≡ (if length a.video.bytes == 0 then failure eproto else success))
split_access_unit_lem grants u units configuration video wf g b c m n =
    let d = stream units in
    let (start, code) =
      find_start_code-stream d 0 u [] units refl (omega arith) tt (none-Apart units) in
    let found = find_start_code d 0 u in
    let a = begin grants configuration video in
    let out =
      split_loop-Added units (length d) d found.0 found.1 a wf
        (record {
          granted = g;
          configuration_bounded = b;
          video_bounded = c;
          configuration_fits = m;
          video_fits = n;
        })
        (ap (λ i. drop i d) start) (omega (arith, start)) (omega arith) (code_of units _ u code) in
    subst
      (λ (a', result).
        (a'.configuration.bytes ≡ configuration.bytes ++ annex_b (configurations (nals_of units)))
        × (a'.video.bytes ≡ video.bytes ++ annex_b (pictures (nals_of units)))
        × (a'.idr ≡ any_idr (nals_of units))
        × (result ≡ (if length a'.video.bytes == 0 then failure eproto else success)))
      (sym (split_access_unit_looped grants u d configuration video out.ok))
      (out.configured, out.pictured, out.idr, refl)
