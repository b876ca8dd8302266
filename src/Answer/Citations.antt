-- ===== src/Answer/Citations.antt =====
-- Which references of an answer count: the first of each observation.
use penampakan.Base.{
  ◌≡◌, String, List, [], ◌∷◌, map, All, Bool-cases, inl, inr, if◌then◌else◌, eq_iff, arith, All-map,
  true, false, ◌||◌,
}
use penampakan.Base.Texts.{contains, IsDistinct, NoneSeen, NoneSeen-cons}
use penampakan.Answer.{EvidenceRef}

-- the references that count: the first of each observation
unfoldable pub first_citations : List String → List EvidenceRef → List EvidenceRef
first_citations seen [] = []
first_citations seen (r ∷ rs) =
    let skip = first_citations seen rs in
    let rest = first_citations (r.observation_id ∷ seen) rs in
    if contains r.observation_id seen then skip else r ∷ rest

abbrev pub ids : List EvidenceRef → List String
ids rs = map (λ (r : EvidenceRef). r.observation_id) rs

pub first_citations-NoneSeen :
    (seen : List String) (rs : List EvidenceRef)
    → IsDistinct (ids (first_citations seen rs)) × NoneSeen seen (ids (first_citations seen rs))
unfolding first_citations
first_citations-NoneSeen seen [] = (tt, tt)
first_citations-NoneSeen seen (r ∷ rs) = elim (Bool-cases (contains r.observation_id seen)) [
  | inl old ↦ rw old (first_citations-NoneSeen seen rs)
  | inr new ↦
      let (distinct, unseen) = first_citations-NoneSeen (r.observation_id ∷ seen) rs in
      let (fresh, rest) =
        NoneSeen-cons r.observation_id seen (ids (first_citations (r.observation_id ∷ seen) rs))
          unseen in
      rw new ((fresh, distinct), (new, rest))
]

-- no observation is cited twice
pub first_citations-IsDistinct : (rs : List EvidenceRef) → IsDistinct (ids (first_citations [] rs))
first_citations-IsDistinct rs = (first_citations-NoneSeen [] rs).0

first_citations-skip :
    (seen : List String) (r : EvidenceRef) (rs : List EvidenceRef)
    → contains r.observation_id seen ≡ true
    → first_citations seen (r ∷ rs) ≡ first_citations seen rs
unfolding first_citations
first_citations-skip seen r rs h = ground (arith, h)

first_citations-take :
    (seen : List String) (r : EvidenceRef) (rs : List EvidenceRef)
    → contains r.observation_id seen ≡ false
    → first_citations seen (r ∷ rs) ≡ r ∷ first_citations (r.observation_id ∷ seen) rs
unfolding first_citations
first_citations-take seen r rs h = ground (arith, h)

-- a reference whose observation was seen before, or is among the ones that count
abbrev IsCovered : List String → List EvidenceRef → EvidenceRef → Type 0
IsCovered seen firsts r =
    (contains r.observation_id seen || contains r.observation_id (ids firsts)) ≡ true

-- every observation that is cited, and was not seen before, has its first citation
pub first_citations-covers :
    (seen : List String) (rs : List EvidenceRef) → All (IsCovered seen (first_citations seen rs)) rs
unfolding contains
first_citations-covers seen [] = tt
first_citations-covers seen (r ∷ rs) = elim (Bool-cases (contains r.observation_id seen)) [
  | inl old ↦
      let same = first_citations-skip seen r rs old in
      (
        ground (arith, old),
        All-map (IsCovered seen (first_citations seen rs))
            (IsCovered seen (first_citations seen (r ∷ rs))) rs (λ x h. ground (arith, same, h))
            (first_citations-covers seen rs),
      )
  | inr new ↦
      let firsts : List EvidenceRef = first_citations (r.observation_id ∷ seen) rs in
      let same : first_citations seen (r ∷ rs) ≡ r ∷ firsts = first_citations-take seen r rs new in
      (
        ground (arith, same, eq_iff r.observation_id r.observation_id),
        All-map (IsCovered (r.observation_id ∷ seen) firsts)
            (IsCovered seen (first_citations seen (r ∷ rs))) rs (λ x h. ground (arith, same, h))
            (first_citations-covers (r.observation_id ∷ seen) rs),
      )
]
