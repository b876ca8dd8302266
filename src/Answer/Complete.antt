-- ===== src/Answer/Complete.antt =====
-- When evidence is accepted, and an error that is not the checker's own.
use Prim.Native.Char.{Char, code}
use penampakan.Base.{
  ◌≡◌, ◌⊎◌, ◌↔◌, refl, String, true, false, not, ◌&&◌, Option, some, List, [], ◌∷◌, All-all, arith,
  eq_iff, Bool-cases, inl, inr,
}
use penampakan.Base.Floats.{Floats}
use penampakan.Base.Errors.{type_error}
use penampakan.Base.Result.{ok, raised}
use penampakan.Base.Dict.{lookup}
use penampakan.Base.Texts.{contains}
use penampakan.Models.{Observation, Json, JsonList, json_list, json_dict, JsonDict}
use penampakan.Answer.Citations.{first_citations}
use penampakan.Answer.Sound.{
  IsGrounded, Matches, IsAccepted, IsExcused, validate_evidence-IsAccepted,
}
use penampakan.Answer.{
  AnswerAction, ActionStatus, answered, insufficient_evidence, EvidenceRef, Evidence, Scope,
  contains_action_json, is_citable, json_get, is_action, is_action_type, is_answered, is_nil,
  root_of, check_reference, collect, cited_ids, is_supported, validate_evidence,
  only_reports_not_visible,
}

status_cases : (x : ActionStatus) → (x ≡ answered) ⊎ (x ≡ insufficient_evidence)
status_cases answered = inl refl
status_cases insufficient_evidence = inr refl

module _ {F : Floats} where
  check_reference-ok :
      (s : Scope F) (r : EvidenceRef) (e : Evidence F)
      → IsGrounded s r.observation_id e
      → e.supports ≡ r.supports
      → check_reference s r ≡ ok e
  unfolding check_reference
  check_reference-ok s r e g same = ground (
    arith,
    g.stored,
    g.shown,
    g.citable,
    g.plain,
    g.same_root,
    same,
    eq_iff (root_of s.asset_root_ids e.observation.asset_id) s.root_asset_id,
  )

  collect-ok :
      (s : Scope F) (seen : List String) (rs : List EvidenceRef) (es : List (Evidence F))
      → Matches s (first_citations seen rs) es
      → collect s seen rs ≡ ok es
  unfolding collect first_citations
  collect-ok s seen [] [] m = refl
  collect-ok s seen [] (e ∷ es) m = absurd m
  collect-ok s seen (r ∷ rs) [] m = elim (Bool-cases (contains r.observation_id seen)) [
    | inl old ↦ rw old (collect-ok s seen rs [] (rw old at m))
    | inr new ↦
        let m' : Matches s (r ∷ first_citations (r.observation_id ∷ seen) rs) [] = rw new at m in
        absurd m'
  ]
  collect-ok s seen (r ∷ rs) (e ∷ es) m = elim (Bool-cases (contains r.observation_id seen)) [
    | inl old ↦ rw old (collect-ok s seen rs (e ∷ es) (rw old at m))
    | inr new ↦
        let m' : Matches s (r ∷ first_citations (r.observation_id ∷ seen) rs) (e ∷ es) =
          rw new at m in
        rw
          (
            new,
            check_reference-ok s r e m'.0.0 m'.0.1,
            collect-ok s (r.observation_id ∷ seen) rs es m'.1,
          )
          refl
  ]

  -- the last test of the checker fails when the answer is excused
  excused_lem :
      (a : AnswerAction) (s : Scope F) (es : List (Evidence F))
      → IsExcused a s es
      → (is_answered a.status && is_nil es && not (only_reports_not_visible s.casefold a.answer))
        ≡ false
  unfolding is_answered is_nil
  excused_lem a s [] h = elim (status_cases a.status) [
    | inl answers ↦ ground (arith, h answers refl, answers)
    | inr abstains ↦ ground (arith, abstains)
  ]
  excused_lem a s (e ∷ es) h = ground arith

  validate_evidence-ok :
      (a : AnswerAction) (s : Scope F) (es : List (Evidence F))
      → IsAccepted a s es
      → validate_evidence a s ≡ ok es
  unfolding validate_evidence
  validate_evidence-ok a s es v =
      rw
        (
          collect-ok s [] a.evidence es v.cited,
          All-all (is_supported s (cited_ids es)) es v.supported,
        )
        (rw (excused_lem a s es v.excused) refl)

  -- The checker accepts an answer with the evidence `es` exactly when `es` holds one piece for the
  -- first reference to each observation and no other, in order, each with the reference's own claim
  -- and stored, shown, citable, free of action JSON and of the asked image; each mark description
  -- has a cited source; and an answered action with no evidence only reports what is not visible.
  pub validate_evidence_iff :
      (a : AnswerAction) (s : Scope F) (es : List (Evidence F))
      → (validate_evidence a s ≡ ok es) ↔ IsAccepted a s es
  validate_evidence_iff a s es = (validate_evidence-IsAccepted a s es, validate_evidence-ok a s es)

  -- the checker's own refusal of a reference's claim
  action_error :
      (raw_decode : String → Option (Json F)) (c : Char) (t : String) (d : JsonDict F)
      (xs : JsonList F)
      → code c ≡ b'{'
      → raw_decode (String.◌∷◌ c t) ≡ some (json_dict d)
      → json_get "type" d ≡ some (json_list xs)
      → contains_action_json raw_decode (String.◌∷◌ c t) ≡ raised type_error
  unfolding contains_action_json is_action is_action_type
  action_error raw_decode c t d xs brace decoded listed = ground (arith, brace, decoded, listed)

  -- When the claim of an answer's first reference starts with a JSON object whose "type" is a list,
  -- and the reference is otherwise to a stored, shown, citable observation, then the checker raises
  -- `TypeError`, which is not an evidence validation error.
  pub validate_evidence-type_error :
      (a : AnswerAction) (s : Scope F) (r : EvidenceRef) (rs : List EvidenceRef) (o : Observation F)
      (c : Char) (t : String) (d : JsonDict F) (xs : JsonList F)
      → a.evidence ≡ r ∷ rs
      → lookup r.observation_id s.indexed ≡ some o
      → contains r.observation_id s.visible ≡ true
      → is_citable o.payload ≡ true
      → r.supports ≡ String.◌∷◌ c t
      → code c ≡ b'{'
      → s.raw_decode (String.◌∷◌ c t) ≡ some (json_dict d)
      → json_get "type" d ≡ some (json_list xs)
      → validate_evidence a s ≡ raised type_error
  unfolding validate_evidence collect check_reference
  validate_evidence-type_error a s r rs o c t d xs first stored shown citable claim brace decoded
        listed =
      rw
        (
          first,
          stored,
          shown,
          citable,
          claim,
          action_error s.raw_decode c t d xs brace decoded listed,
        )
        refl
