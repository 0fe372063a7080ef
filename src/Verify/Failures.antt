-- ===== src/Verify/Failures.antt =====
-- protocol/failures.py: the classes of failure in order of their weight, the verdict of a check and
-- the worst failure of several. A failure's detail is what its message names.
use microtensor_compute.Common.{
  ℕ, ◌≤◌, ◌≡◌, ◌⊎◌, inl, inr, refl, Bool, true, List, [], ◌∷◌, Option, none, some, arith,
  if◌then◌else◌, ltb, Bool-cases, Option-cases, ◌∙◌, In, All, is_some, not,
}
use microtensor_compute.Common.Text.{Text}

pub data FailureClass : Type 0 where
  ssh_transport agent_crash challenge_reject spec_mismatch unauthorised_work nested_container
        duplicate_uuid version_stale :
      FailureClass

-- `list(FailureClass).index(kind)`
abbrev pub class_index : FailureClass → ℕ
class_index ssh_transport = 0
class_index agent_crash = 1
class_index challenge_reject = 2
class_index spec_mismatch = 3
class_index unauthorised_work = 4
class_index nested_container = 5
class_index duplicate_uuid = 6
class_index version_stale = 7

pub data Detail : Type 0 where
  enrolled_on : Text → Text → Detail
  not_placed : ℕ → Text → Detail
  other_detail : Text → Detail

pub record Failure : Type 0 where
  pub kind : FailureClass
  pub detail : Detail

pub record Verdict : Type 0 where
  pub check : Text
  pub failure : Option Failure

abbrev pub passed : Verdict → Bool
passed v = not (is_some v.failure)

-- `[v.failure for v in verdicts if v.failure is not None]`
unfoldable pub failures : List Verdict → List Failure
failures [] = []
failures (v ∷ vs) = elim v.failure [ none ↦ failures vs | some f ↦ f ∷ failures vs ]

abbrev pub lesser : Failure → Failure → Failure
lesser best f = if ltb (class_index f.kind) (class_index best.kind) then f else best

-- `min` keeps the first of the least.
unfoldable pub least : Failure → List Failure → Failure
least best [] = best
least best (f ∷ fs) = least (lesser best f) fs

abbrev pub worst_of : List Failure → Option Failure
worst_of [] = none
worst_of (f ∷ fs) = some (least f fs)

unfoldable pub worst : List Verdict → Option Failure
unfolding failures least
worst verdicts = worst_of (failures verdicts)

abbrev IsLeast : Failure → List Failure → Type 0
IsLeast f fs = In f fs × All (λ g. class_index f.kind ≤ class_index g.kind) fs

lesser-le :
    (best f : Failure)
    → (class_index (lesser best f).kind ≤ class_index best.kind)
      × (class_index (lesser best f).kind ≤ class_index f.kind)
lesser-le best f = elim (Bool-cases (ltb (class_index f.kind) (class_index best.kind))) [
  | inl e ↦ rw (e, lesser) (ground arith, omega arith)
  | inr e ↦ rw (e, lesser) (omega arith, ground arith)
]

lesser_either : (best f : Failure) → (lesser best f ≡ best) ⊎ (lesser best f ≡ f)
lesser_either best f = elim (Bool-cases (ltb (class_index f.kind) (class_index best.kind))) [
  | inl e ↦ inr (rw e refl)
  | inr e ↦ inl (rw e refl)
]

least-le :
    (best : Failure) (fs : List Failure)
    → (class_index (least best fs).kind ≤ class_index best.kind)
      × All (λ g. class_index (least best fs).kind ≤ class_index g.kind) fs
unfolding least
least-le best [] = (omega arith, tt)
least-le best (f ∷ fs) =
    let (h, a) = least-le (lesser best f) fs in
    let (b, c) = lesser-le best f in (omega arith, (omega arith, a))

least-In : (best : Failure) (fs : List Failure) → In (least best fs) (best ∷ fs)
unfolding least
least-In best [] = inl refl
least-In best (f ∷ fs) = elim (least-In (lesser best f) fs) [
  | inr i ↦ inr (inr i)
  | inl e ↦ elim (lesser_either best f) [ inl b ↦ inl (e ∙ b) | inr b ↦ inr (inl (e ∙ b)) ]
]

-- What the worst of some verdicts is: none where each passed, or else a failure of one of them
-- with no failure of a class above it.
abbrev pub IsWorst : List Verdict → Option Failure → Type 0
IsWorst verdicts none = All (λ v. passed v ≡ true) verdicts
IsWorst verdicts (some f) = IsLeast f (failures verdicts)

none-passed : (vs : List Verdict) → failures vs ≡ [] → All (λ v. passed v ≡ true) vs
unfolding failures
none-passed [] h = tt
none-passed (v ∷ vs) h = elim (Option-cases v.failure) [
  | inl e ↦ (rw e refl, none-passed vs (rw e at h))
  | inr (f, e) ↦ let h' = rw e at h in cc
]

worst_of-IsWorst :
    (vs : List Verdict) (fs : List Failure) → failures vs ≡ fs → IsWorst vs (worst_of fs)
worst_of-IsWorst vs [] h = none-passed vs h
worst_of-IsWorst vs (f ∷ fs) h = rw h (least-In f fs, least-le f fs)

-- The worst failure is none exactly where every check passed, and otherwise the failure of one of
-- the checks, of a class that no other failure's class stands before.
pub worst-IsWorst : (verdicts : List Verdict) → IsWorst verdicts (worst verdicts)
unfolding worst
worst-IsWorst verdicts = worst_of-IsWorst verdicts (failures verdicts) refl
