-- ===== src/Actions/AccessUnit/Splitting.antt =====
-- backends/actions-micro/actions_micro_backend.c: an Annex B stream is cut into its NAL units.
use usbdisplay_stack.Common.{
  ℕ, ◌+◌, ◌≡◌, refl, ap, ◌∙◌, ◌≢◌, Bool, true, false, Option, none, some, List, [], ◌∷◌, ◌++◌,
  arith, length, drop,
}
use usbdisplay_stack.Actions.AccessUnit.{start_code, scan, find_start_code}

-- No start code begins in these bytes.
abbrev pub NoStartCode : List ℕ → Type 0
NoStartCode [] = Unit {0}
NoStartCode (x ∷ xs) = (start_code (x ∷ xs) ≡ 0) × NoStartCode xs

-- A NAL unit behind a start code of four bytes, or of three.
abbrev pub coded : Bool → List ℕ → List ℕ
coded true n = 0 ∷ 0 ∷ 0 ∷ 1 ∷ n
coded false n = 0 ∷ 0 ∷ 1 ∷ n

abbrev pub code_size : Bool → ℕ
code_size true = 4
code_size false = 3

-- The stream of a list of NAL units, each behind a start code of four bytes.
unfoldable pub annex_b : List (List ℕ) → List ℕ
annex_b [] = []
annex_b (n ∷ nals) = 0 ∷ 0 ∷ 0 ∷ 1 ∷ (n ++ annex_b nals)

-- The stream of a list of NAL units, each with whether its start code has four bytes.
unfoldable pub stream : List (Bool × List ℕ) → List ℕ
stream [] = []
stream ((long, n) ∷ units) = coded long (n ++ stream units)

abbrev pub nals_of : List (Bool × List ℕ) → List (List ℕ)
nals_of [] = []
nals_of ((long, n) ∷ units) = n ∷ nals_of units

-- The bytes do not end with a zero.
abbrev pub NoZeroEnd : List ℕ → Type 0
NoZeroEnd [] = Unit {0}
NoZeroEnd (x ∷ []) = x ≢ 0
NoZeroEnd (x ∷ y ∷ xs) = NoZeroEnd (y ∷ xs)

-- A zero in front of a start code of three bytes would belong to a start code of four.
abbrev pub Apart : List ℕ → List (Bool × List ℕ) → Type 0
Apart n [] = Unit {0}
Apart n ((true, m) ∷ units) = Unit {0}
Apart n ((false, m) ∷ units) = NoZeroEnd n

pub Apart-tail :
    (x : ℕ) (xs : List ℕ) (units : List (Bool × List ℕ)) → Apart (x ∷ xs) units → Apart xs units
Apart-tail x xs [] h = tt
Apart-tail x xs ((true, m) ∷ units) h = tt
Apart-tail x [] ((false, m) ∷ units) h = tt
Apart-tail x (y ∷ xs) ((false, m) ∷ units) h = h

-- A byte string that holds no start code holds none in front of a stream either.
start_code-stream :
    (x : ℕ) (xs : List ℕ) (units : List (Bool × List ℕ))
    → start_code (x ∷ xs) ≡ 0
    → Apart (x ∷ xs) units
    → start_code (x ∷ (xs ++ stream units)) ≡ 0
unfolding stream
start_code-stream x [] [] h a = refl
start_code-stream x [] ((true, n) ∷ units) h a = ground arith
start_code-stream x [] ((false, n) ∷ units) h a = ground arith
start_code-stream x (y ∷ []) [] h a = refl
start_code-stream x (y ∷ []) ((true, n) ∷ units) h a = ground arith
start_code-stream x (y ∷ []) ((false, n) ∷ units) h a = ground arith
start_code-stream x (y ∷ z ∷ []) [] h a = h
start_code-stream x (y ∷ z ∷ []) ((true, n) ∷ units) h a = ground arith
start_code-stream x (y ∷ z ∷ []) ((false, n) ∷ units) h a = ground arith
start_code-stream x (y ∷ z ∷ w ∷ xs) units h a = h

-- The scan passes over them to the stream.
scan-stream :
    (xs : List ℕ) (units : List (Bool × List ℕ)) (offset : ℕ)
    → NoStartCode xs
    → Apart xs units
    → scan (xs ++ stream units) offset ≡ scan (stream units) (offset + length xs)
unfolding scan
scan-stream [] units offset h a = ap (scan (stream units)) (omega arith)
scan-stream (x ∷ xs) units offset (clean, later) a = rw (start_code-stream x xs units clean a) (
    scan-stream xs units (offset + 1) later (Apart-tail x xs units a)
    ∙ ap (scan (stream units)) (omega arith))

-- The first start code of a stream.
unfoldable first_code : List (Bool × List ℕ) → ℕ → Option (ℕ × ℕ)
first_code [] offset = none
first_code ((long, n) ∷ units) offset = some (offset, code_size long)

-- The length of the start code that comes next.
unfoldable pub code_length : ℕ → List (Bool × List ℕ) → ℕ
code_length start_length [] = start_length
code_length start_length ((long, n) ∷ units) = code_size long

short_code : (xs : List ℕ) → start_code (0 ∷ 0 ∷ 1 ∷ xs) ≡ 3
short_code [] = refl
short_code (x ∷ xs) = refl

scan_stream :
    (units : List (Bool × List ℕ)) (offset : ℕ)
    → scan (stream units) offset ≡ first_code units offset
unfolding scan stream first_code
scan_stream [] offset = refl
scan_stream ((true, n) ∷ units) offset = refl
scan_stream ((false, n) ∷ units) offset = rw (short_code (n ++ stream units))

find_none :
    (d : List ℕ) (offset start_length : ℕ)
    → scan (drop offset d) offset ≡ none
    → find_start_code d offset start_length ≡ (length d, start_length)
unfolding find_start_code
find_none d offset start_length e = rw (e, find_start_code)

find_some :
    (d : List ℕ) (offset start_length : ℕ) {found : ℕ × ℕ}
    → scan (drop offset d) offset ≡ some found
    → find_start_code d offset start_length ≡ found
unfolding find_start_code
find_some d offset start_length e = rw (e, find_start_code)

-- The search from behind the first byte of a NAL unit finds the start of what follows.
pub find_start_code-stream :
    (d : List ℕ) (offset start_length : ℕ) (body : List ℕ) (units : List (Bool × List ℕ))
    → drop offset d ≡ body ++ stream units
    → length d ≡ offset + length body + length (stream units)
    → NoStartCode body
    → Apart body units
    → ((find_start_code d offset start_length).0 ≡ offset + length body)
      × ((find_start_code d offset start_length).1 ≡ code_length start_length units)
unfolding stream code_length first_code
find_start_code-stream d offset start_length body [] e l clean apart =
    let found =
      find_none d offset start_length
        (ap (λ xs. scan xs offset) e ∙ scan-stream body [] offset clean apart ∙ scan_stream [] _) in
    (ap (λ p. p.0) found ∙ omega (arith, l), ap (λ p. p.1) found)
find_start_code-stream d offset start_length body ((long, n) ∷ units) e l clean apart =
    let found = find_some d offset start_length (
      ap (λ xs. scan xs offset) e
      ∙ scan-stream body ((long, n) ∷ units) offset clean apart
      ∙ scan_stream ((long, n) ∷ units) (offset + length body)) in
    (ap (λ p. p.0) found, ap (λ p. p.1) found)
