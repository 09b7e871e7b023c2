-- ===== src/Actions/Template/Examples.antt =====
-- backends/actions-micro/actions_micro_backend.c: a template that loads.
use usbdisplay_stack.Common.{
  ℕ, ◌≡◌, refl, true, none, List, [], ◌∷◌, ◌++◌, success, ok, replicate, write_at,
}
use usbdisplay_stack.Actions.Template.{magic_bytes, load_template, Stream}
use usbdisplay_stack.Actions.Template.Loaded.{load_template_lem, IsTemplate}
use usbdisplay_stack.Actions.Wire.{read_le16, read_le32, mem_eq, ppa}

-- A file of three records: a command, a video report and a heartbeat.
abbrev record_head : ℕ → ℕ → ℕ → List ℕ
record_head timestamp endpoint id =
    timestamp ∷ 0 ∷ 0 ∷ 0 ∷ 0 ∷ 0 ∷ 0 ∷ 0 ∷ endpoint ∷ id ∷ 0 ∷ 0 ∷ 0 ∷ 16 ∷ 0 ∷ 0 ∷ []

abbrev plain_report : ℕ → ℕ → ℕ → List ℕ
plain_report id kind payload =
    write_at (replicate 4096 0) 0
      (id ∷ kind ∷ 0 ∷ 0 ∷ 0 ∷ 0 ∷ 0 ∷ 0 ∷ 1 ∷ 0 ∷ 0 ∷ 0 ∷ payload ∷ 0 ∷ payload ∷ 0 ∷ 0 ∷ 0 ∷ ppa)

abbrev template_file : Stream
template_file = record {
  bytes =
      (magic_bytes ++ (1 ∷ 0 ∷ 0 ∷ 0 ∷ 3 ∷ 0 ∷ 0 ∷ 0 ∷ []))
      ++ (record_head 5 4 1 ++ plain_report 1 1 24)
      ++ (record_head 7 3 2 ++ plain_report 2 2 99)
      ++ (record_head 9 3 2 ++ plain_report 2 1 34);
  fault = none;
}

template_loads : (load_template true (ok template_file) true []).1 ≡ success
unfolding load_template mem_eq read_le32 read_le16
template_loads = refl

load_template_lem_example : IsTemplate (load_template true (ok template_file) true []).0
load_template_lem_example = load_template_lem true (ok template_file) true [] template_loads
