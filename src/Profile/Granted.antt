-- ===== src/Profile/Granted.antt =====
-- The resources that an accepted profile call is given.
use taskcage.Prelude.{◌^◌, ◌<◌, String, ◌≡◌, Bool, true, Option, none, some, List, [], ◌∷◌, ok}
use taskcage.Core.Invocation.{ProfileResourceOverrides}
use taskcage.Policy.Resource
use taskcage.Policy.Resource.{ResourcePolicy}
use taskcage.Policy.Output
use taskcage.Policy.Output.{OutputPolicy}
use taskcage.Policy.Budget
use taskcage.Policy.Budget.{ResourceBudget}
use taskcage.Policy.Maximum.{Within}
use taskcage.Profile.Types.{CapsuleResourcePolicy, CompiledCapsuleProfile}
use taskcage.Profile.Names.{contains}
use taskcage.Profile.Resources.{budget_of, overridden, requested_fields}

-- The CPU numbers are u64 values.
abbrev pub Fits : CapsuleResourcePolicy → Type 0
Fits p = (p.quota_micros < 2 ^ 64) × (p.period_micros < 2 ^ 64)

-- Every field that is overridden is in the allowlist.
abbrev pub AllAllowed : List String → List (String × Bool) → Type 0
AllAllowed allowed [] = Unit {0}
AllAllowed allowed ((field, requested) ∷ fields) =
    (requested ≡ true → contains field allowed ≡ true) × AllAllowed allowed fields

-- What a call's overrides may make of the capsule's maximum.
abbrev pub Grants :
    CompiledCapsuleProfile
    → Option ProfileResourceOverrides
    → ResourceBudget
    → ResourceBudget
    → Type 0
Grants profile none maximum granted = granted ≡ maximum
Grants profile (some overrides) maximum granted =
    (budget_of (overridden profile.resource_policy overrides) ≡ ok granted)
    × Within granted maximum
    × AllAllowed profile.allowed_overrides (requested_fields overrides)

-- The CPU numbers of an override are u64 values.
abbrev pub OverrideFits : CapsuleResourcePolicy → Option ProfileResourceOverrides → Type 0
OverrideFits p none = Unit {0}
OverrideFits p (some o) = Fits (overridden p o)
