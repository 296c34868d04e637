-- ===== src/Gateway/Registry/Laws.antt =====
-- internal/provider/bridge.go: a registry that is built finds each of its bridges.
use one_llm_router.Prelude.{
  String, ◌≡◌, refl, sym, Bool, true, false, Option, some, none, List, [], ◌∷◌, arith, eq_iff,
  Bool-cases, ◌⊎◌, ◌↔◌, subst, Option-cases, inl, inr, In, if◌then◌else◌,
}
use one_llm_router.Gateway.Registry.{
  OperationBridge, Credential, eq_credential, has_key, resolve, register, new_bridge_registry,
}

eq_credential-same : (c : Credential) → eq_credential c c ≡ true
eq_credential-same Credential.api_key = refl
eq_credential-same Credential.oauth = refl

eq_credential-eq : (c d : Credential) → eq_credential c d ≡ true → c ≡ d
eq_credential-eq Credential.api_key Credential.api_key p = refl
eq_credential-eq Credential.oauth Credential.oauth p = refl
eq_credential-eq Credential.api_key Credential.oauth p = ground arith
eq_credential-eq Credential.oauth Credential.api_key p = ground arith

has_key-own : (b : OperationBridge) → has_key b.op_id b.credential b ≡ true
has_key-own b = ground (arith, eq_iff b.op_id b.op_id, eq_credential-same b.credential)

-- A bridge answers to its own operation and credential only.
has_key-key :
    (b : OperationBridge) (op_id : String) (c : Credential)
    → has_key op_id c b ≡ true
    → (b.op_id ≡ op_id) × (b.credential ≡ c)
has_key-key b op_id c p =
    (ground (arith, eq_iff b.op_id op_id), eq_credential-eq b.credential c (ground arith))

register_step :
    (registry bridges built : List OperationBridge) (b : OperationBridge)
    → register registry (b ∷ bridges) ≡ some built
    → (resolve registry b.op_id b.credential ≡ none)
      × (register (b ∷ registry) bridges ≡ some built)
unfolding register
register_step registry bridges built b p =
    elim (Option-cases (resolve registry b.op_id b.credential)) [
      | inl none_yet ↦ (none_yet, ground arith)
      | inr (a, found) ↦ ground arith
    ]

resolve_cons :
    (registry : List OperationBridge) (b₀ b : OperationBridge) (op_id : String) (c : Credential)
    → resolve registry b₀.op_id b₀.credential ≡ none
    → resolve registry op_id c ≡ some b
    → resolve (b₀ ∷ registry) op_id c ≡ some b
unfolding resolve
resolve_cons registry b₀ b op_id c free p = elim (Bool-cases (has_key op_id c b₀)) [
  | inl t ↦ let (same_op, same_c) = has_key-key b₀ op_id c t in cc
  | inr f ↦ rw f p
]

resolve-own :
    (registry : List OperationBridge) (b : OperationBridge)
    → resolve (b ∷ registry) b.op_id b.credential ≡ some b
unfolding resolve
resolve-own registry b = rw (has_key-own b) refl

register_keeps :
    (registry bridges built : List OperationBridge) (op_id : String) (c : Credential)
    (b : OperationBridge)
    → register registry bridges ≡ some built
    → resolve registry op_id c ≡ some b
    → resolve built op_id c ≡ some b
unfolding register
register_keeps registry [] built op_id c b p q = ground arith
register_keeps registry (b₀ ∷ bridges) built op_id c b p q =
    let (free, rest) = register_step registry bridges built b₀ p in
    register_keeps (b₀ ∷ registry) bridges built op_id c b rest
      (resolve_cons registry b₀ b op_id c free q)

register_finds :
    (registry bridges built : List OperationBridge) (b : OperationBridge)
    → register registry bridges ≡ some built
    → In b bridges
    → resolve built b.op_id b.credential ≡ some b
register_finds registry [] built b p h = elim h [ ]
register_finds registry (b₀ ∷ bridges) built b p (inl e) =
    let (free, rest) = register_step registry bridges built b₀ p in
    register_keeps (b₀ ∷ registry) bridges built b.op_id b.credential b rest
      (rw e (resolve-own registry b₀))
register_finds registry (b₀ ∷ bridges) built b p (inr h) =
    let (free, rest) = register_step registry bridges built b₀ p in
    register_finds (b₀ ∷ registry) bridges built b rest h

first_found :
    (h : Bool) (b₀ b : OperationBridge) (rest : Option OperationBridge)
    → h ≡ true
    → (if h then some b₀ else rest) ≡ some b
    → b₀ ≡ b
first_found true b₀ b rest t found = ground arith
first_found false b₀ b rest t found = ground arith

resolve_first :
    (registry bridges : List OperationBridge) (b₀ b : OperationBridge) (op_id : String)
    (c : Credential)
    → resolve (b₀ ∷ registry) op_id c ≡ some b
    → (In b (b₀ ∷ bridges) × (b.op_id ≡ op_id) × (b.credential ≡ c))
      ⊎ (resolve registry op_id c ≡ some b)
unfolding resolve
resolve_first registry bridges b₀ b op_id c found = elim (Bool-cases (has_key op_id c b₀)) [
  | inl t ↦
      let same = first_found (has_key op_id c b₀) b₀ b _ t found in
      let (same_op, same_c) = has_key-key b₀ op_id c t in inl (inl (sym same), cc, cc)
  | inr f ↦ inr (ground arith)
]

register_source :
    (registry bridges built : List OperationBridge) (op_id : String) (c : Credential)
    (b : OperationBridge)
    → register registry bridges ≡ some built
    → resolve built op_id c ≡ some b
    → (In b bridges × (b.op_id ≡ op_id) × (b.credential ≡ c)) ⊎ (resolve registry op_id c ≡ some b)
unfolding register
register_source registry [] built op_id c b p q = inr (ground arith)
register_source registry (b₀ ∷ bridges) built op_id c b p q =
    let (free, rest) = register_step registry bridges built b₀ p in
    elim (register_source (b₀ ∷ registry) bridges built op_id c b rest q) [
      | inl (h, key, key') ↦ inl (inr h, key, key')
      | inr found ↦ resolve_first registry bridges b₀ b op_id c found
    ]

-- An empty registry has no bridge.
from_table :
    {P : Type 0} (op_id : String) (c : Credential) {b : OperationBridge}
    → P ⊎ (resolve [] op_id c ≡ some b)
    → P
unfolding resolve
from_table op_id c (inl p) = p
from_table op_id c (inr found) = ground arith

-- Where the table of bridges has no two bridges for one operation and credential (building the
-- registry does not panic), Resolve returns a bridge exactly when it is in the table with that
-- operation and that credential.
pub resolve_iff_In :
    (bridges built : List OperationBridge) (op_id : String) (c : Credential) (b : OperationBridge)
    → new_bridge_registry bridges ≡ some built
    → (resolve built op_id c ≡ some b) ↔ (In b bridges × (b.op_id ≡ op_id) × (b.credential ≡ c))
unfolding new_bridge_registry
resolve_iff_In bridges built op_id c b p = (
  λ q. from_table op_id c (register_source [] bridges built op_id c b p q),
  λ (h, same_op, same_c).
      subst (λ o. resolve built o c ≡ some b) same_op
        (subst (λ d. resolve built b.op_id d ≡ some b) same_c
          (register_finds [] bridges built b p h)),
)
