-- ===== src/Actions/AccessUnit.antt =====
-- backends/actions-micro/actions_micro_backend.c: the encoder's output, cut at its start codes into
-- configuration and video (reserve_buffer to split_access_unit). `grants` is what the calls of realloc
-- will answer, in order.
pub mod Laws
pub mod Units
pub mod RoundTrip
pub mod Steps
pub mod Appending
pub mod Splitting
use usbdisplay_stack.Common.{
  ℕ, zero, suc, ◌+◌, ◌-◌, ◌*◌, ◌%◌, min, Bool, true, false, not, ◌&&◌, ◌||◌, Option, none, some,
  List, [], ◌∷◌, ◌++◌, ltb, leb, ◌==◌, if◌then◌else◌, u32, u64, Status, success, failure, length,
  take, drop, eproto, e2big, enomem,
}
use usbdisplay_stack.Actions.Wire.{byte}
use usbdisplay_stack.Daemon.Main.{start}

abbrev pub max_encoded_bytes : ℕ
max_encoded_bytes = 32 * 1024 * 1024

-- struct byte_buffer: the bytes in use (data, length) and the capacity.
pub record Buffer : Type 0 where
  pub bytes : List ℕ
  pub capacity : ℕ

-- A script that has run out answers with memory.
abbrev pub next_grant : List Bool → Bool
next_grant [] = true
next_grant (g ∷ grants) = g

abbrev pub rest_grants : List Bool → List Bool
rest_grants [] = []
rest_grants (g ∷ grants) = grants

-- The loop of reserve_buffer, for at most so many rounds. A size_t has 64 bits: a capacity that wraps
-- is 0 from then on, where the code would not leave the loop.
unfoldable pub double_capacity : ℕ → ℕ → ℕ → ℕ → ℕ
double_capacity zero new_capacity required maximum = new_capacity
double_capacity (suc rounds) new_capacity required maximum =
    let rest = double_capacity rounds (u64 (new_capacity * 2)) required maximum in
    if ltb new_capacity required && ltb new_capacity maximum then rest else new_capacity

-- The capacity that is asked for; a capacity doubles at most `required` times.
unfoldable pub grown_capacity : ℕ → ℕ → ℕ → ℕ
grown_capacity capacity required maximum =
    min (double_capacity required (if capacity == 0 then 65536 else capacity) required maximum)
      maximum

unfoldable pub reserve_buffer : List Bool → Buffer → ℕ → ℕ → Buffer × List Bool × Status
unfolding grown_capacity
reserve_buffer grants b required maximum =
    let new_capacity = grown_capacity b.capacity required maximum in
    if leb required b.capacity
    then (b, grants, success)
    else if ltb new_capacity required
    then (b, grants, failure e2big)
    else if not (next_grant grants)
    then (b, rest_grants grants, failure enomem)
    else (record b { capacity = new_capacity }, rest_grants grants, success)

unfoldable pub append_bytes : List Bool → Buffer → List ℕ → Buffer × List Bool × Status
append_bytes grants b added =
    let (b', grants', result) =
      reserve_buffer grants b (length b.bytes + length added) max_encoded_bytes in
    elim result [
      | success ↦ (record b' { bytes = b'.bytes ++ added }, grants', success)
      | failure e ↦ (b', grants', failure e)
    ]

-- `nal` is the NAL unit with its start code.
unfoldable pub append_annex_b_nal : List Bool → Buffer → List ℕ → ℕ → Buffer × List Bool × Status
append_annex_b_nal grants b nal start_length =
    let (b', grants', result) = append_bytes grants b (0 ∷ 0 ∷ 0 ∷ 1 ∷ []) in
    if (not (start_length == 3) && not (start_length == 4)) || leb (length nal) start_length
    then (b, grants, failure eproto)
    else elim result [
      | success ↦ append_bytes grants' b' (drop start_length nal)
      | failure e ↦ (b', grants', failure e)
    ]

abbrev pub has_bytes : List ℕ → Bool
has_bytes [] = false
has_bytes (x ∷ xs) = true

-- The length of the start code that the bytes at data + offset begin with, or 0.
abbrev pub start_code : List ℕ → ℕ
start_code [] = 0
start_code (a ∷ []) = 0
start_code (a ∷ b ∷ []) = 0
start_code (a ∷ b ∷ c ∷ xs) =
    if has_bytes xs && a == 0 && b == 0 && c == 0 && byte xs 0 == 1
    then 4
    else if a == 0 && b == 0 && c == 1
    then 3
    else 0

-- The loop of find_start_code over the bytes at data + offset.
unfoldable pub scan : List ℕ → ℕ → Option (ℕ × ℕ)
scan [] offset = none
scan (x ∷ xs) offset =
    let rest = scan xs (offset + 1) in
    if start_code (x ∷ xs) == 0 then rest else some (offset, start_code (x ∷ xs))

-- The offset of the next start code and its length, which stays as it was when there is none.
unfoldable pub find_start_code : List ℕ → ℕ → ℕ → ℕ × ℕ
find_start_code d offset start_length = elim (scan (drop offset d) offset) [
  | none ↦ (length d, start_length)
  | some found ↦ found
]

pub record NalSummary : Type 0 where
  pub aud : Bool
  pub sps : Bool
  pub pps : Bool
  pub idr : Bool
  pub count : ℕ

-- What split_access_unit fills in, and what realloc will answer.
pub record AccessUnit : Type 0 where
  pub configuration : Buffer
  pub video : Buffer
  pub idr : Bool
  pub summary : NalSummary
  pub grants : List Bool

unfoldable pub summarize : NalSummary → ℕ → NalSummary
summarize s nal_type = record {
  aud = s.aud || nal_type == 9;
  sps = s.sps || nal_type == 7;
  pps = s.pps || nal_type == 8;
  idr = s.idr || nal_type == 5;
  count = u32 (s.count + 1);
}

-- data[start + start_length] & 0x1f
unfoldable pub nal_type_at : List ℕ → ℕ → ℕ
nal_type_at d i = byte d i % 32

abbrev pub is_configuration : ℕ → Bool
is_configuration nal_type = nal_type == 6 || nal_type == 7 || nal_type == 8

-- One NAL unit, its start code included, goes to its buffer.
unfoldable pub split_nal : ℕ → List ℕ → ℕ → AccessUnit → AccessUnit × Status
split_nal nal_type nal start_length a =
    let summary = summarize a.summary nal_type in
    let (configuration, grants, result) =
      append_annex_b_nal a.grants a.configuration nal start_length in
    let (video, grants', result') = append_annex_b_nal a.grants a.video nal start_length in
    if is_configuration nal_type
    then (record a { configuration = configuration; summary = summary; grants = grants }, result)
    else if not (nal_type == 9)
    then (
      record a { video = video; idr = a.idr || nal_type == 5; summary = summary; grants = grants' },
      result',
    )
    else (record a { summary = summary }, success)

-- The loop: every round moves `start` forward, so `length d` rounds are enough. next_start_length is
-- read only when there is a next start code, and then it is its length.
unfoldable pub split_loop : ℕ → List ℕ → ℕ → ℕ → AccessUnit → AccessUnit × Status
split_loop zero d start start_length a = (a, success)
split_loop (suc rounds) d start start_length a =
    let (next_start, next_length) = find_start_code d (start + start_length + 1) 0 in
    let nal_type = nal_type_at d (start + start_length) in
    let (a', result) =
      split_nal nal_type (take (next_start - start) (drop start d)) start_length a in
    let rest = split_loop rounds d next_start next_length a' in
    if leb (length d) start
    then (a, success)
    else if leb (length d) (start + start_length)
    then (a, failure eproto)
    else elim result [ success ↦ rest | failure e ↦ (a', failure e) ]

abbrev pub no_summary : NalSummary
no_summary = record { aud = false; sps = false; pps = false; idr = false; count = 0 }

-- What the function fills in before its loop.
abbrev pub begin : List Bool → Buffer → Buffer → AccessUnit
begin grants configuration video = record {
  configuration = configuration;
  video = video;
  idr = false;
  summary = no_summary;
  grants = grants;
}

-- `uninitialized` is what start_length holds when there is no start code at all: it is not read.
unfoldable pub split_access_unit : List Bool → ℕ → List ℕ → Buffer → Buffer → AccessUnit × Status
split_access_unit grants uninitialized d configuration video =
    let (start, start_length) = find_start_code d 0 uninitialized in
    let (a, result) =
      split_loop (length d) d start start_length (begin grants configuration video) in
    elim result [
      | success ↦ if length a.video.bytes == 0 then (a, failure eproto) else (a, success)
      | failure e ↦ (a, failure e)
    ]
