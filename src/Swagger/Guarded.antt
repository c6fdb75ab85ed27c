-- ===== src/Swagger/Guarded.antt =====
-- In production the documentation is behind its guards: common/swagger under the configuration that
-- common/config/env.schema.ts lets pass.
use mib_server.Prelude.{
  sym, and-eq-true, if◌then◌else◌, inr, inl, eq_iff, arith, Bool-cases, ℕ, ◌≡◌, refl, String,
  str_eq, Bool, true, false, ◌&&◌, Option, none, some, List, [], ◌∷◌, ◌++◌, ok,
}
use mib_server.Config.Env.{is_forbidden_secret_value, EnvConfig, TextRuntime, is_production_env}
use mib_server.Config.Secrets.{IsGuarded, HasStrong}
use mib_server.Swagger.{
  or_undefined, GuardRuntime, DocRequest, Guard, internal_network, basic_auth, Verdict, next,
  refused, safe_equal, credentials, swagger_basic_auth, swagger_internal_network, run_guards,
  apply_swagger_guards, is_private_or_loopback_ip, address_of,
}

-- A strong value is there and is not empty.
strong-given :
    (text : TextRuntime) (n : ℕ) (o : Option String)
    → HasStrong text n o
    → (value : String) × (o ≡ some value) × (or_undefined o ≡ some value)
unfolding is_forbidden_secret_value
strong-given text n none h = absurd h
strong-given text n (some value) (_, strong) =
    let full : str_eq value "" ≡ false = ground arith in (value, refl, rw full refl)

module _ (js : GuardRuntime) where
  safe_equal-eq : (a b : String) → safe_equal js a b ≡ true → a ≡ b
  unfolding safe_equal
  safe_equal-eq a b h = ground (arith, eq_iff a b)

  -- What a request has that the guard of the credentials lets pass.
  basic_auth-known :
      (user pass : String) (authorization : Option String)
      → swagger_basic_auth js user pass authorization ≡ next
      → (header : String) × (authorization ≡ some header)
        × (credentials js (js.decode_base64 (js.after_six header)) ≡ (user, pass))
  unfolding swagger_basic_auth
  basic_auth-known user pass none h = cc
  basic_auth-known user pass (some header) h =
      let given = credentials js (js.decode_base64 (js.after_six header)) in
      (
        header,
        refl,
        by_prefix (js.starts_with header "Basic ") given
            (safe_equal js given.0 user && safe_equal js given.1 pass) refl h,
      )
    where
      by_prefix :
          (b : Bool) (given : String × String) (same : Bool)
          → (safe_equal js given.0 user && safe_equal js given.1 pass) ≡ same
          → (if b
              then (if same then next else refused 401 "Invalid credentials")
              else refused 401 "Authentication required")
            ≡ next
          → given ≡ (user, pass)
      by_prefix true given true e h =
          let (u, p) = and-eq-true (safe_equal js given.0 user) (safe_equal js given.1 pass) e in
          rw (sym (safe_equal-eq given.0 user u)) (rw (sym (safe_equal-eq given.1 pass p)) refl)
      by_prefix true given false e h = cc
      by_prefix false given same e h = cc

  network-private :
      (req : DocRequest)
      → swagger_internal_network js req ≡ next
      → is_private_or_loopback_ip js (address_of js req) ≡ true
  unfolding swagger_internal_network
  network-private req h = elim (Bool-cases (is_private_or_loopback_ip js (address_of js req))) [
    | inl e ↦ e
    | inr e ↦ absurd (cc (rw e at h))
  ]

  run_guards-both :
      (internal : Bool) (user pass : String) (req : DocRequest)
      → run_guards js
          ((if internal then internal_network ∷ [] else []) ++ (basic_auth user pass ∷ []))
          req
        ≡ next
      → (swagger_basic_auth js user pass req.authorization ≡ next)
        × (internal ≡ true → is_private_or_loopback_ip js (address_of js req) ≡ true)
  unfolding run_guards
  run_guards-both true user pass req h =
      by_verdicts (swagger_internal_network js req)
        (swagger_basic_auth js user pass req.authorization) refl refl h
    where
      by_verdicts :
          (v w : Verdict)
          → swagger_internal_network js req ≡ v
          → swagger_basic_auth js user pass req.authorization ≡ w
          → (elim v [
            | next ↦ elim w [ next ↦ next | refused s t ↦ refused s t ]
            | refused s t ↦ refused s t
          ])
            ≡ next
          → (swagger_basic_auth js user pass req.authorization ≡ next)
            × (true ≡ true → is_private_or_loopback_ip js (address_of js req) ≡ true)
      by_verdicts next next a b h = (b, λ _. network-private req a)
      by_verdicts next (refused _ _) a b h = cc
      by_verdicts (refused _ _) w a b h = cc
  run_guards-both false user pass req h =
      (by_verdict (swagger_basic_auth js user pass req.authorization) refl h, λ e. cc)
    where
      by_verdict :
          (w : Verdict)
          → swagger_basic_auth js user pass req.authorization ≡ w
          → (elim w [ next ↦ next | refused s t ↦ refused s t ]) ≡ next
          → swagger_basic_auth js user pass req.authorization ≡ next
      by_verdict next b h = b
      by_verdict (refused _ _) b h = cc

  -- A configuration for production that passed its checks, with the documentation switched on: the
  -- guards are mounted without an error, and a request that passes them has brought the configured
  -- user and password, and comes from a private address where only those are allowed.
  pub apply_swagger_guards-IsGuarded :
      (text : TextRuntime) (env : EnvConfig) (req : DocRequest)
      → IsGuarded text env
      → is_production_env env.node_env ≡ true
      → env.swagger_enabled ≡ true
      → (guards : List Guard) × (apply_swagger_guards env ≡ ok guards)
        × (run_guards js guards req ≡ next
            → (header : String) × (user : String) × (pass : String) × (req.authorization
                ≡ some header)
              × (env.swagger_basic_user ≡ some user)
              × (env.swagger_basic_password ≡ some pass)
              × (credentials js (js.decode_base64 (js.after_six header)) ≡ (user, pass))
              × (env.swagger_internal_only ≡ true
                  → is_private_or_loopback_ip js (address_of js req) ≡ true))
  unfolding apply_swagger_guards
  apply_swagger_guards-IsGuarded text env req guarded production enabled =
      let (has_user, has_pass) = (guarded production).swagger enabled in
      let (user, is_user, user_given) = strong-given text 1 env.swagger_basic_user has_user in
      let (pass, is_pass, pass_given) = strong-given text 12 env.swagger_basic_password has_pass in
      (
        (if env.swagger_internal_only then internal_network ∷ [] else [])
            ++ (basic_auth user pass ∷ []),
        rw production (rw user_given (rw pass_given refl)),
        λ passed.
            let (known, private) = run_guards-both env.swagger_internal_only user pass req passed in
            let (header, brought, same) = basic_auth-known user pass req.authorization known in
            (header, user, pass, brought, is_user, is_pass, same, private),
      )
