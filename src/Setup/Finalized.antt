-- ===== src/Setup/Finalized.antt =====
-- What the wizard of crates/core/src/application/first_run_setup.rs has checked and decided when it
-- has written the environment file.
use brain.Base.{ℕ, ◌<◌, ◌≡◌, refl, String, Bool, true, false, ◌&&◌, inl, inr, Bool-cases, arith}
use brain.Base.Io.{Yields, Yields-pure, Yields-bind, Yields-any}
use brain.Base.Result.{ok}
use brain.Base.Text.{is_empty}
use brain.Base.Whitespace.{trim}
use brain.Config.EnvFile.Given.{IsGiven}
use brain.Setup.Model.{
  SetupPaths, DependencyStatus, AccessModeDraft, local_only, remote_only, both, TunnelModeDraft,
  disabled, cloudflare_quick, cloudflare_named, direct_public_origin, SetupDraftConfig,
  SetupSummary, FinalizeSetupRequest,
}
use brain.Setup.Wizard.{
  SetupSystemPort, policy, apply_access_mode_policy, validate_nonempty, validate_positive_u64,
  validate_vault_path, with_secret, with_password, with_token, fetched, written, completed,
  finalize,
}

abbrev is_disabled : TunnelModeDraft → Bool
is_disabled disabled = true
is_disabled mode = false

-- The endpoints are those of the mode of access.
abbrev pub IsAllowed : AccessModeDraft → Bool → TunnelModeDraft → Type 0
IsAllowed local_only local mode = (local ≡ true) × (mode ≡ disabled)
IsAllowed remote_only local mode = (local ≡ false) × (is_disabled mode ≡ false)
IsAllowed both local mode = (local ≡ true) × (is_disabled mode ≡ false)

abbrev pub IsValid : SetupDraftConfig → Type 0
IsValid draft =
    IsGiven draft.client_id
    × IsGiven draft.username
    × (0 < draft.access_token_lifetime_secs)
    × (0 < draft.refresh_token_lifetime_secs)

abbrev pub IsReady : SetupDraftConfig → Type 0
IsReady draft =
    IsValid draft × IsAllowed draft.access_mode draft.local_mcp_enabled draft.tunnel_mode

policy-IsReady :
    (draft : SetupDraftConfig) (access : AccessModeDraft) (mode : TunnelModeDraft)
    → draft.access_mode ≡ access
    → draft.tunnel_mode ≡ mode
    → IsValid draft
    → IsReady (policy draft access mode)
policy-IsReady draft local_only mode a m v = (v, rw a (refl, refl))
policy-IsReady draft remote_only disabled a m v = (v, rw a (refl, refl))
policy-IsReady draft remote_only cloudflare_quick a m v = (v, rw (a, m) (refl, refl))
policy-IsReady draft remote_only (cloudflare_named n d) a m v = (v, rw (a, m) (refl, refl))
policy-IsReady draft remote_only (direct_public_origin h) a m v = (v, rw (a, m) (refl, refl))
policy-IsReady draft both disabled a m v = (v, rw a (refl, refl))
policy-IsReady draft both cloudflare_quick a m v = (v, rw (a, m) (refl, refl))
policy-IsReady draft both (cloudflare_named n d) a m v = (v, rw (a, m) (refl, refl))
policy-IsReady draft both (direct_public_origin h) a m v = (v, rw (a, m) (refl, refl))

policed : (draft : SetupDraftConfig) → IsValid draft → IsReady (apply_access_mode_policy draft)
unfolding apply_access_mode_policy
policed draft v = policy-IsReady draft draft.access_mode draft.tunnel_mode refl refl v

module _ {W : Type 0} where
  nonempty-IsGiven :
      (label value : String) → Yields {W = W} (λ _. IsGiven value) (validate_nonempty label value)
  unfolding validate_nonempty
  nonempty-IsGiven label value = record { at = λ w u h. ground arith }

  positive-Yields :
      (label : String) (value : ℕ)
      → Yields {W = W} (λ _. 0 < value) (validate_positive_u64 label value)
  unfolding validate_positive_u64
  positive-Yields label value = record { at = λ w u h. ground arith }

module _ {W : Type 0} (port : SetupSystemPort W) (repo : String) where
  secret-IsValid :
      (draft : SetupDraftConfig) → IsValid draft → Yields IsValid (with_secret port repo draft)
  secret-IsValid draft v = elim (Bool-cases (is_empty (trim draft.client_secret))) [
    | inl blank ↦ rw blank (
        Yields-bind _ IsValid _ _ (Yields-any (port.generate_secret_hex 32))
          (λ secret _. Yields-pure IsValid (record draft { client_secret = secret }) v))
    | inr given ↦ rw given (Yields-pure IsValid draft v)
  ]

  password-IsValid :
      (generated : Bool) (draft : SetupDraftConfig)
      → IsValid draft
      → Yields IsValid (with_password port repo generated draft)
  password-IsValid true draft v =
      Yields-bind _ IsValid _ _ (Yields-any (port.generate_password 24))
        (λ password _. Yields-pure IsValid (record draft { password = password }) v)
  password-IsValid false draft v =
      Yields-bind _ IsValid _ _ (Yields-any (validate_nonempty "password" draft.password))
        (λ _ _. Yields-pure IsValid draft v)

  token-IsReady :
      (draft : SetupDraftConfig) → IsReady draft → Yields IsReady (with_token port repo draft)
  token-IsReady draft r =
      elim (Bool-cases (draft.local_mcp_enabled && is_empty (trim draft.local_mcp_bearer_token))) [
        | inl blank ↦ rw blank (
            Yields-bind _ IsReady _ _ (Yields-any (port.generate_secret_hex 32))
              (λ token _. Yields-pure IsReady (record draft { local_mcp_bearer_token = token }) r))
        | inr given ↦ rw given (Yields-pure IsReady draft r)
      ]

  abbrev Summarized : SetupSummary → Type 0
  Summarized summary = IsReady summary.draft

  written-Summarized :
      (paths : SetupPaths) (dependencies : DependencyStatus) (draft : SetupDraftConfig)
      → IsReady draft
      → Yields Summarized (written port repo paths dependencies draft)
  written-Summarized paths dependencies draft r =
      Yields-bind _ Summarized _ _ (Yields-any (port.render_env_file draft paths)) (λ contents _.
        Yields-bind _ Summarized _ _ (Yields-any (port.ensure_app_home_dirs paths)) (λ _ _.
          Yields-bind _ Summarized _ _ (Yields-any (fetched port repo paths draft)) (λ _ _.
            Yields-bind _ Summarized _ _ (Yields-any (port.write_env_file paths.env_file contents))
              (λ _ _. Yields-pure Summarized _ r))))

  -- From the checks on.
  completed-Summarized :
      (request : FinalizeSetupRequest) (paths : SetupPaths) (dependencies : DependencyStatus)
      → IsValid request.draft
      → Yields Summarized (completed port repo request paths dependencies)
  unfolding completed
  completed-Summarized request paths dependencies v =
      Yields-bind IsValid Summarized _ _ (secret-IsValid request.draft v) (λ secret s.
        Yields-bind IsValid Summarized _ _ (password-IsValid request.generate_password secret s)
          (λ given g.
            Yields-bind IsReady Summarized _ _
              (token-IsReady (apply_access_mode_policy given) (policed given g))
              (written-Summarized paths dependencies)))

  finalize-Summarized :
      (request : FinalizeSetupRequest) → Yields Summarized (finalize port repo request)
  unfolding finalize
  finalize-Summarized request =
      let draft = request.draft in
      Yields-bind _ Summarized _ _ (Yields-any port.resolve_paths) (λ paths _.
        Yields-bind _ Summarized _ _ (Yields-any port.collect_dependency_status) (λ dependencies _.
          Yields-bind _ Summarized _ _ (nonempty-IsGiven "client ID" draft.client_id) (λ _ c.
            Yields-bind _ Summarized _ _ (nonempty-IsGiven "username" draft.username) (λ _ u.
              Yields-bind _ Summarized _ _
                (positive-Yields "access token lifetime" draft.access_token_lifetime_secs)
                (λ _ a.
                  Yields-bind _ Summarized _ _
                    (positive-Yields "refresh token lifetime" draft.refresh_token_lifetime_secs)
                    (λ _ r.
                      Yields-bind _ Summarized _ _
                        (Yields-any (validate_vault_path port repo draft.vault_path))
                        (λ _ _. completed-Summarized request paths dependencies (c, u, a, r))))))))

  -- Whatever the system does, a set-up that finishes without an error has a client ID and a user name that are not
  -- blank and lifetimes above zero, and its draft has the endpoints of its mode of access: for local
  -- access the local endpoint and no tunnel, for remote access a public host and no local endpoint,
  -- for both a public host and the local endpoint.
  pub finalize-IsReady :
      (request : FinalizeSetupRequest) (w : W) (summary : SetupSummary)
      → (finalize port repo request w).0 ≡ ok summary
      → IsReady summary.draft
  finalize-IsReady request w summary h = (finalize-Summarized request).at w summary h
