-- ===== src/Ffi/Spec/Defaults.antt =====
-- crates/sg-ffi/src/view.rs: what the texts of a configuration may switch on.
use server_glass.Base.{
  ◌≡◌, ◌≢◌, ◌||◌, refl, sym, Bool, true, false, Text, codes, text_eq, text_eq_iff, arith, not,
  Bool-cases, inl, inr,
}
use mathlib.Core.Path.{subst}
use server_glass.Transport.HostKey.{HostKeyPolicy, accept_any}
use server_glass.Ffi.Spec.{TargetConfig, connection_spec, Auth, agent, auth_of, policy_of}

abbrev pub accepts_any : HostKeyPolicy → Bool
accepts_any accept_any = true
accepts_any _ = false

abbrev pub is_agent : Auth → Bool
is_agent agent = true
is_agent _ = false

policy_of-accepts_any :
    (name : Text) → accepts_any (policy_of name) ≡ text_eq name (codes "accept_any")
unfolding policy_of
policy_of-accepts_any name = elim (Bool-cases (text_eq name (codes "accept_new"))) [
  | inl e ↦
      rw (policy_of, e)
        (subst (λ n. false ≡ text_eq n (codes "accept_any"))
          (sym ((text_eq_iff name (codes "accept_new")).0 e)) (unfold text_eq in refl))
  | inr e ↦ elim (Bool-cases (text_eq name (codes "accept_any"))) [
    | inl h ↦ rw (policy_of, e, h) refl
    | inr h ↦ rw (policy_of, e, h) refl
  ]
]

auth_of-is_agent :
    (c : TargetConfig)
    → is_agent (auth_of c)
      ≡ not (
          text_eq c.auth_kind (codes "key")
          || text_eq c.auth_kind (codes "key_text")
          || text_eq c.auth_kind (codes "password"))
unfolding auth_of
auth_of-is_agent c = elim (Bool-cases (text_eq c.auth_kind (codes "key"))) [
  | inl e ↦ rw (auth_of, e) refl
  | inr e ↦ elim (Bool-cases (text_eq c.auth_kind (codes "key_text"))) [
    | inl h ↦ rw (auth_of, e, h) refl
    | inr h ↦ elim (Bool-cases (text_eq c.auth_kind (codes "password"))) [
      | inl k ↦ rw (auth_of, e, h, k) refl
      | inr k ↦ rw (auth_of, e, h, k) refl
    ]
  ]
]

-- Every key of a host is accepted only for the text `accept_any`; the agent signs in unless the text
-- is `key`, `key_text` or `password`; the port is never zero.
pub connection_spec-defaults :
    (c : TargetConfig)
    → (accepts_any (connection_spec c).host_key_policy
        ≡ text_eq c.host_key_policy (codes "accept_any"))
      × (is_agent (connection_spec c).auth
          ≡ not (
              text_eq c.auth_kind (codes "key")
              || text_eq c.auth_kind (codes "key_text")
              || text_eq c.auth_kind (codes "password")))
      × ((connection_spec c).port ≢ 0)
unfolding connection_spec
connection_spec-defaults c =
    (policy_of-accepts_any c.host_key_policy, auth_of-is_agent c, ground arith)
