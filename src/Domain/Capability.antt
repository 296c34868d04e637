-- ===== src/Domain/Capability.antt =====
-- internal/domain/account.go: capability-governed operations.
use Prim.Native.String
use one_llm_router.Prelude.{
  String, ◌≡◌, inl, inr, subst, Bool, true, false, not, Option, none, some, List, [], ◌∷◌, arith,
  eq_iff, any, str_eq, contains, contains-In, In-contains, In, has_prefix, if◌then◌else◌, refl,
}
use one_llm_router.Domain.Account.{
  UpstreamAccount, is_oauth, system_one_only, capability_system_one,
}

-- capabilityGovernedPrefixes
abbrev pub governed_prefixes : List String
governed_prefixes =
    capability_system_one ∷ "op.openai.chat_completions" ∷ "op.openai.responses" ∷ []

-- ValidateCapabilities; an error is the first capability that is not known
unfoldable pub validate_capabilities : List String → Option String
validate_capabilities [] = none
validate_capabilities (c ∷ caps) =
    let rest = validate_capabilities caps in if contains governed_prefixes c then rest else some c

-- prefix + "."
abbrev dotted : String → String
dotted p = String.◌++◌ p "."

abbrev pub covers : List String → String → Bool
covers caps op_id = any (λ c. has_prefix op_id (dotted c)) caps

-- HasCapabilityFor
unfoldable pub has_capability_for : UpstreamAccount → String → Bool
has_capability_for a op_id =
    if is_oauth a
    then true
    else if not (covers governed_prefixes op_id)
    then true
    else covers a.capabilities op_id

pub validate_capabilities-In :
    (caps : List String) (c : String)
    → validate_capabilities caps ≡ none
    → In c caps
    → In c governed_prefixes
unfolding validate_capabilities
validate_capabilities-In [] c h i = elim i [ ]
validate_capabilities-In (d ∷ caps) c h (inl e) =
    rw e (contains-In governed_prefixes d (ground arith))
validate_capabilities-In (d ∷ caps) c h (inr i) = validate_capabilities-In caps c (ground arith) i

pub In-validate_capabilities :
    (caps : List String)
    → ((c : String) → In c caps → In c governed_prefixes)
    → validate_capabilities caps ≡ none
unfolding validate_capabilities
In-validate_capabilities [] h = refl
In-validate_capabilities (d ∷ caps) h =
    rw (In-contains governed_prefixes d (h d (inl refl)))
      (In-validate_capabilities caps (λ c i. h c (inr i)))

known_alone :
    (c : String)
    → contains governed_prefixes c ≡ true
    → str_eq c "op.openai.chat_completions" ≡ false
    → str_eq c "op.openai.responses" ≡ false
    → c ≡ capability_system_one
known_alone c k n m = ground (
  arith,
  eq_iff capability_system_one c,
  eq_iff "op.openai.chat_completions" c,
  eq_iff "op.openai.responses" c,
  eq_iff c "op.openai.chat_completions",
  eq_iff c "op.openai.responses",
)

head_covers :
    (c op_id : String)
    → c ≡ capability_system_one
    → has_prefix op_id (dotted c) ≡ true
    → has_prefix op_id "op.systemone." ≡ true
head_covers c op_id e h = subst (λ (d : String). has_prefix op_id (dotted d) ≡ true) e h

-- Known capabilities that leave out the two legacy groups cover System One operations only.
covers_system_one :
    (caps : List String) (op_id : String)
    → validate_capabilities caps ≡ none
    → contains caps "op.openai.chat_completions" ≡ false
    → contains caps "op.openai.responses" ≡ false
    → covers caps op_id ≡ true
    → has_prefix op_id "op.systemone." ≡ true
unfolding validate_capabilities
covers_system_one [] op_id v n m h = cc
covers_system_one (c ∷ caps) op_id v n m h =
    ground (arith, known_alone c, head_covers c op_id, covers_system_one caps op_id)

-- An account that is System One only and declares known capabilities alone is offered a governed
-- operation only when that operation is a System One one.
pub system_one_only_isolated :
    (a : UpstreamAccount) (op_id : String)
    → system_one_only a ≡ true
    → validate_capabilities a.capabilities ≡ none
    → covers governed_prefixes op_id ≡ true
    → has_capability_for a op_id ≡ true
    → has_prefix op_id "op.systemone." ≡ true
unfolding system_one_only has_capability_for
system_one_only_isolated a op_id only known governed offered =
    covers_system_one a.capabilities op_id known (ground arith) (ground arith) (ground arith)
