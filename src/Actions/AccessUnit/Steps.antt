-- ===== src/Actions/AccessUnit/Steps.antt =====
-- backends/actions-micro/actions_micro_backend.c: one NAL unit in the loop of split_access_unit.
use mathlib.Core.List.{append-nil}
use usbdisplay_stack.Common.{
  ℕ, ◌+◌, ◌%◌, ◌≡◌, refl, sym, ap, ◌∙◌, inl, inr, Bool, true, false, ◌||◌, List, [], ◌∷◌, ◌++◌,
  arith, ◌==◌, Bool-cases, success, length, length-append,
}
use usbdisplay_stack.Actions.AccessUnit.{
  append_annex_b_nal, summarize, is_configuration, split_nal, AccessUnit,
}
use usbdisplay_stack.Actions.AccessUnit.Appending.{append_annex_b_nal-Appended}
use usbdisplay_stack.Actions.AccessUnit.Splitting.{coded, code_size, annex_b}
use usbdisplay_stack.Actions.AccessUnit.Units.{
  configurations, pictures, any_idr, annex_b_single, annex_b_cons, HasRoom-rest, configuration_kind,
  delimiter_kind, picture_kind, Added, HasRoom,
}

pub or_false : (q : Bool) → (q || false) ≡ q
or_false true = refl
or_false false = refl

module _ (a : AccessUnit) (long : Bool) (header : ℕ) (body : List ℕ) where
  abbrev unit : List ℕ
  unit = coded long (header ∷ body)

  abbrev kind : ℕ
  kind = header % 32

  -- The three ways of split_nal.
  split_nal_configuration :
      is_configuration kind ≡ true
      → let o = append_annex_b_nal a.grants a.configuration unit (code_size long) in
        split_nal kind unit (code_size long) a
        ≡ (record a { configuration = o.0; summary = summarize a.summary kind; grants = o.1 }, o.2)
  unfolding split_nal
  split_nal_configuration e = rw (e, split_nal)

  split_nal_delimiter :
      is_configuration kind ≡ false
      → (kind == 9) ≡ true
      → split_nal kind unit (code_size long) a
        ≡ (record a { summary = summarize a.summary kind }, success)
  unfolding split_nal
  split_nal_delimiter e f = rw (e, split_nal) (rw f)

  split_nal_picture :
      is_configuration kind ≡ false
      → (kind == 9) ≡ false
      → let o = append_annex_b_nal a.grants a.video unit (code_size long) in
        split_nal kind unit (code_size long) a ≡ (
          record a {
            video = o.0;
            idr = a.idr || kind == 5;
            summary = summarize a.summary kind;
            grants = o.1;
          },
          o.2,
        )
  unfolding split_nal
  split_nal_picture e f = rw (e, split_nal) (rw f)

  module _ (nals : List (List ℕ)) (r : HasRoom a ((header ∷ body) ∷ nals)) where
    -- The NAL unit goes where it belongs, and there is room for the rest.
    pub record Step : Type 0 where
      pub after : AccessUnit
      pub reached : split_nal kind unit (code_size long) a ≡ (after, success)
      pub added : Added a ((header ∷ body) ∷ []) (after, success)
      pub room : HasRoom after nals

    length_unit : length (annex_b ((header ∷ body) ∷ [])) ≡ 5 + length body
    length_unit = ap length (annex_b_single header body) ∙ omega arith

    configuration_step : is_configuration kind ≡ true → Step
    unfolding any_idr annex_b configurations pictures
    configuration_step e =
        let o = append_annex_b_nal a.grants a.configuration unit (code_size long) in
        let (c1, p1, i1) = configuration_kind (header ∷ body) [] e in
        let (c, p, i) = configuration_kind (header ∷ body) nals e in
        let size =
          ap (λ ns. length (annex_b ns)) c
          ∙ ap length (annex_b_cons (header ∷ body) (configurations nals))
          ∙ length-append (annex_b ((header ∷ body) ∷ [])) (annex_b (configurations nals)) in
        let out =
          append_annex_b_nal-Appended a.grants a.configuration long header body r.granted
            r.configuration_bounded (omega (arith, r.configuration_fits, size, length_unit)) in
        let after = record a {
          configuration = o.0;
          summary = summarize a.summary kind;
          grants = o.1;
        } in
        let added : Added a ((header ∷ body) ∷ []) (after, success) = record {
          configured =
              out.whole
              ∙ ap (λ xs. a.configuration.bytes ++ xs)
                  (sym (ap annex_b c1 ∙ annex_b_single header body));
          pictured = sym (ap (λ ns. a.video.bytes ++ annex_b ns) p1 ∙ append-nil a.video.bytes);
          idr = sym (ap (λ q. a.idr || (q || false)) i1 ∙ or_false a.idr);
          ok = refl;
        } in
        record {
          after = after;
          reached = split_nal_configuration e ∙ ap (λ q. (after, q)) out.ok;
          added = added;
          room =
              HasRoom-rest a after (header ∷ body) nals r added out.granted out.bounded
                r.video_bounded;
        }

    delimiter_step : is_configuration kind ≡ false → (kind == 9) ≡ true → Step
    unfolding any_idr annex_b configurations pictures
    delimiter_step e f =
        let (c1, p1, i1) = delimiter_kind (header ∷ body) [] e f in
        let after = record a { summary = summarize a.summary kind } in
        let added : Added a ((header ∷ body) ∷ []) (after, success) = record {
          configured = sym (
              ap (λ ns. a.configuration.bytes ++ annex_b ns) c1 ∙ append-nil a.configuration.bytes);
          pictured = sym (ap (λ ns. a.video.bytes ++ annex_b ns) p1 ∙ append-nil a.video.bytes);
          idr = sym (ap (λ q. a.idr || (q || false)) i1 ∙ or_false a.idr);
          ok = refl;
        } in
        record {
          after = after;
          reached = split_nal_delimiter e f;
          added = added;
          room =
              HasRoom-rest a after (header ∷ body) nals r added r.granted r.configuration_bounded
                r.video_bounded;
        }

    picture_step : is_configuration kind ≡ false → (kind == 9) ≡ false → Step
    unfolding any_idr annex_b configurations pictures
    picture_step e f =
        let o = append_annex_b_nal a.grants a.video unit (code_size long) in
        let (c1, p1) = picture_kind (header ∷ body) [] e f in
        let (c, p) = picture_kind (header ∷ body) nals e f in
        let size =
          ap (λ ns. length (annex_b ns)) p
          ∙ ap length (annex_b_cons (header ∷ body) (pictures nals))
          ∙ length-append (annex_b ((header ∷ body) ∷ [])) (annex_b (pictures nals)) in
        let out =
          append_annex_b_nal-Appended a.grants a.video long header body r.granted r.video_bounded
            (omega (arith, r.video_fits, size, length_unit)) in
        let after = record a {
          video = o.0;
          idr = a.idr || kind == 5;
          summary = summarize a.summary kind;
          grants = o.1;
        } in
        let added : Added a ((header ∷ body) ∷ []) (after, success) = record {
          configured = sym (
              ap (λ ns. a.configuration.bytes ++ annex_b ns) c1 ∙ append-nil a.configuration.bytes);
          pictured =
              out.whole
              ∙ ap (λ xs. a.video.bytes ++ xs) (sym (ap annex_b p1 ∙ annex_b_single header body));
          idr = ap (λ q. a.idr || q) (sym (or_false (kind == 5)));
          ok = refl;
        } in
        record {
          after = after;
          reached = split_nal_picture e f ∙ ap (λ q. (after, q)) out.ok;
          added = added;
          room =
              HasRoom-rest a after (header ∷ body) nals r added out.granted r.configuration_bounded
                out.bounded;
        }

    pub split_nal_step : Step
    split_nal_step = elim (Bool-cases (is_configuration kind)) [
      | inl e ↦ configuration_step e
      | inr e ↦ elim (Bool-cases (kind == 9)) [
        | inl f ↦ delimiter_step e f
        | inr f ↦ picture_step e f
      ]
    ]
