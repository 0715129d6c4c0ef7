-- ===== src/Twin/Validation/Sound.antt =====
-- What a publication that passes the check has.
use radiant_prj.Common.{
  String, ◌≡◌, refl, true, some, List, [], ◌∷◌, inl, inr, arith, eq_iff, Option-cases, In, All,
}
use radiant_prj.Common.Error.{ok, Result-cases}
use radiant_prj.Common.Dict.{Dict, lookup, insert, lookup-insert_cases}
use radiant_prj.Workbench.Types.{ValueLineage}
use radiant_prj.Twin.Types.{TwinValue, TwinEntity, Publication, value_imputed}
use radiant_prj.Twin.Validation.{
  lineage_by_id, has_lineage, check_values, check_entities, validate_publication,
  twin_publication_id,
}

pub validated_id :
    (digest : String → String) (p : Publication)
    → validate_publication digest p ≡ ok tt
    → p.publication_id ≡ twin_publication_id digest p.source
unfolding validate_publication
validated_id digest p h =
    ground (arith, eq_iff p.publication_id (twin_publication_id digest p.source))

-- An imputed value has a lineage of its own among `ls`.
abbrev pub HasLineage : List ValueLineage → TwinValue → Type 0
HasLineage ls v =
    v.value_basis ≡ value_imputed
    → (l : ValueLineage) × In l ls
      × (l.lineage_id ≡ v.lineage_id)
      × (l.value_id ≡ v.value_id)
      × (l.value_basis ≡ value_imputed)

abbrev FoundIn : List ValueLineage → Dict ValueLineage → Type 0
FoundIn ls found =
    (key : String) (l : ValueLineage) → lookup key found ≡ some l → In l ls × (l.lineage_id ≡ key)

found-insert :
    (ls : List ValueLineage) (l : ValueLineage) (seen : Dict ValueLineage)
    → In l ls
    → FoundIn ls seen
    → FoundIn ls (insert l.lineage_id l seen)
found-insert ls l seen here seen_in key m got =
    elim (lookup-insert_cases l.lineage_id key l seen got) [
      | inl (same_key, same) ↦ (rw (← same) here, rw (← same) same_key)
      | inr before ↦ seen_in key m before
    ]

lineage_by_id-FoundIn :
    (all ls : List ValueLineage) (seen found : Dict ValueLineage)
    → All (λ l. In l all) ls
    → FoundIn all seen
    → lineage_by_id seen ls ≡ ok found
    → FoundIn all found
unfolding lineage_by_id
lineage_by_id-FoundIn all [] seen found within seen_in h =
    rw (← (let s : seen ≡ found = cc in s)) seen_in
lineage_by_id-FoundIn all (l ∷ ls) seen found (here, within) seen_in h =
    lineage_by_id-FoundIn all ls _ found within (found-insert all l seen here seen_in)
      (ground arith)

has_lineage-HasLineage :
    (ls : List ValueLineage) (found : Dict ValueLineage) (v : TwinValue)
    → FoundIn ls found
    → has_lineage found v ≡ true
    → HasLineage ls v
unfolding has_lineage
has_lineage-HasLineage ls found v found_in h imputed =
    elim (Option-cases (lookup v.lineage_id found)) [
      | inl missing ↦ ground (arith, eq_iff v.value_basis value_imputed)
      | inr (l, got) ↦
          let (here, own) = found_in v.lineage_id l got in
          (
            l,
            here,
            own,
            ground (arith, eq_iff v.value_basis value_imputed, eq_iff l.value_id v.value_id),
            ground (arith, eq_iff v.value_basis value_imputed, eq_iff l.value_basis value_imputed),
          )
    ]

values_checked :
    (ls : List ValueLineage) (found : Dict ValueLineage) (vs : List TwinValue)
    → FoundIn ls found
    → check_values found vs ≡ ok tt
    → All (HasLineage ls) vs
unfolding check_values
values_checked ls found [] found_in h = tt
values_checked ls found (v ∷ vs) found_in h = (
  has_lineage-HasLineage ls found v found_in (ground arith),
  values_checked ls found vs found_in (ground arith),
)

entities_checked :
    (ls : List ValueLineage) (found : Dict ValueLineage) (es : List TwinEntity)
    → FoundIn ls found
    → check_entities found es ≡ ok tt
    → All (λ e. All (HasLineage ls) e.values) es
unfolding check_entities
entities_checked ls found [] found_in h = tt
entities_checked ls found (e ∷ es) found_in h = (
  values_checked ls found e.values found_in (ground arith),
  entities_checked ls found es found_in (ground arith),
)

All-In :
    (all ls : List ValueLineage)
    → ((l : ValueLineage) → In l ls → In l all)
    → All (λ l. In l all) ls
All-In all [] sub = tt
All-In all (l ∷ ls) sub = (sub l (inl refl), All-In all ls (λ m here. sub m (inr here)))

none_found : (ls : List ValueLineage) → FoundIn ls []
unfolding lookup
none_found ls key l got = cc

-- A publication that passes the check has its source's identifier, and every imputed value of an
-- entity of its state has a lineage in the publication under the value's lineage identifier, which is
-- of this value and imputed too.
pub validated_lineage :
    (digest : String → String) (p : Publication)
    → validate_publication digest p ≡ ok tt
    → (p.publication_id ≡ twin_publication_id digest p.source)
      × All (λ e. All (HasLineage p.lineage) e.values) p.state.entities
unfolding validate_publication
validated_lineage digest p h = elim (Result-cases (lineage_by_id [] p.lineage)) [
  | inl (e, bad) ↦ ground arith
  | inr (found, made) ↦ (
    validated_id digest p h,
    entities_checked p.lineage found p.state.entities
        (lineage_by_id-FoundIn p.lineage p.lineage [] found
          (All-In p.lineage p.lineage (λ l here. here)) (none_found p.lineage) made)
        (ground arith),
  )
]
