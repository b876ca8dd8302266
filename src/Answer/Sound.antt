-- ===== src/Answer/Sound.antt =====
-- What holds of the evidence of an answer that was accepted.
use penampakan.Base.{
  ◌≡◌, String, true, false, inl, inr, some, List, [], ◌∷◌, All, all-All, arith, eq_iff, Bool-cases,
  Option-cases,
}
use penampakan.Base.Floats.{Floats}
use penampakan.Base.Result.{ok, ◌>>=◌, >>=-eq-ok}
use penampakan.Base.Dict.{lookup}
use penampakan.Base.Texts.{contains}
use penampakan.Answer.Citations.{first_citations}
use penampakan.Answer.{
  AnswerAction, answered, EvidenceRef, Evidence, Scope, contains_action_json, is_citable, root_of,
  check_reference, collect, cited_ids, is_supported, validate_evidence, only_reports_not_visible,
}

module _ {F : Floats} where
  -- One piece of evidence, cited as `id`: an observation that was shown to the policy, of the asked
  -- image, that is no warning and no mark mapping, with a claim that holds no action.
  pub record IsGrounded (s : Scope F) (id : String) (e : Evidence F) : Type 0 where
    pub stored : lookup id s.indexed ≡ some e.observation
    pub shown : contains id s.visible ≡ true
    pub citable : is_citable e.observation.payload ≡ true
    pub plain : contains_action_json s.raw_decode e.supports ≡ ok false
    pub same_root : root_of s.asset_root_ids e.observation.asset_id ≡ s.root_asset_id

  check_reference-IsGrounded :
      (s : Scope F) (r : EvidenceRef) (e : Evidence F)
      → check_reference s r ≡ ok e
      → IsGrounded s r.observation_id e × (e.supports ≡ r.supports)
  unfolding check_reference
  check_reference-IsGrounded s r e h = elim (Option-cases (lookup r.observation_id s.indexed)) [
    | inl f ↦ absurd (ground (arith, f))
    | inr (o, f) ↦ (
      ground (arith, f, eq_iff (root_of s.asset_root_ids o.asset_id) s.root_asset_id),
      ground (arith, f),
    )
  ]

  -- Evidence for each reference, in order.
  abbrev pub Matches : Scope F → List EvidenceRef → List (Evidence F) → Type 0
  Matches s [] [] = Unit
  Matches s [] (e ∷ es) = ⊥
  Matches s (r ∷ rs) [] = ⊥
  Matches s (r ∷ rs) (e ∷ es) =
      (IsGrounded s r.observation_id e × (e.supports ≡ r.supports)) × Matches s rs es

  pub collect-Matches :
      (s : Scope F) (seen : List String) (rs : List EvidenceRef) (es : List (Evidence F))
      → collect s seen rs ≡ ok es
      → Matches s (first_citations seen rs) es
  unfolding collect first_citations
  collect-Matches s seen [] [] h = tt
  collect-Matches s seen [] (e ∷ es) h = absurd (ground arith)
  collect-Matches s seen (r ∷ rs) es h = elim (Bool-cases (contains r.observation_id seen)) [
    | inl old ↦ rw old (collect-Matches s seen rs es (rw old at h))
    | inr new ↦
        let h' : (do
          e ← check_reference s r
          es' ← collect s (r.observation_id ∷ seen) rs
          ok (e ∷ es'))
            ≡ ok es =
          rw new at h in
        let (e, checked, h1) = >>=-eq-ok (check_reference s r) _ h' in
        let (es', more, done) = >>=-eq-ok (collect s (r.observation_id ∷ seen) rs) _ h1 in
        let same : e ∷ es' ≡ es = ground arith in
        rw (new, ← same)
          (
            check_reference-IsGrounded s r e checked,
            collect-Matches s (r.observation_id ∷ seen) rs es' more,
          )
  ]

  -- A mark description stands only beside evidence that one of its mark mappings points to.
  abbrev pub IsSupported : Scope F → List (Evidence F) → Evidence F → Type 0
  IsSupported s es e = is_supported s (cited_ids es) e ≡ true

  -- An answer with no evidence says that nothing is visible, or abstains.
  abbrev pub IsExcused : AnswerAction → Scope F → List (Evidence F) → Type 0
  IsExcused a s es =
      a.status ≡ answered → es ≡ [] → only_reports_not_visible s.casefold a.answer ≡ true

  -- What accepted evidence satisfies: one grounded piece for the first reference to each observation,
  -- in order, and no other; each mark description supported; an answer without evidence excused.
  pub record IsAccepted (a : AnswerAction) (s : Scope F) (es : List (Evidence F)) : Type 0 where
    pub cited : Matches s (first_citations [] a.evidence) es
    pub supported : All (IsSupported s es) es
    pub excused : IsExcused a s es

  pub validate_evidence-IsAccepted :
      (a : AnswerAction) (s : Scope F) (es : List (Evidence F))
      → validate_evidence a s ≡ ok es
      → IsAccepted a s es
  unfolding validate_evidence
  validate_evidence-IsAccepted a s es h =
      let (es', collected, rest) = >>=-eq-ok (collect s [] a.evidence) _ h in
      let same : es' ≡ es = ground arith in
      let matched : Matches s (first_citations [] a.evidence) es' =
        collect-Matches s [] a.evidence es' collected in
      record {
        cited = rw same at matched;
        supported = all-All (is_supported s (cited_ids es)) es (ground arith);
        excused = λ answers none. ground arith;
      }
