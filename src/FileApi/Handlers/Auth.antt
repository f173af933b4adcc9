-- ===== src/FileApi/Handlers/Auth.antt =====
-- internal/adapters/in/fileapi/server.go: whom the middleware lets through.
use gameserver_daemon.Common.{
  String, ◌<>◌, true, ◌≡◌, ◌≢◌, ◌⊎◌, inl, inr, refl, sym, ap, ◌∙◌, arith, string_dec,
}
use text.Mathlib.TextLemmas.{cons-append, nil-append}
use gameserver_daemon.Common.Strings.{trim_prefix, has_prefix, drop_prefix}
use gameserver_daemon.Common.Strings.Laws.{has_prefix-append}
use gameserver_daemon.FileApi.Handlers.{Response, failed_with, auth}

trim_prefix-append : (p s : String) → (has_prefix (p <> s) p ≡ true) × (drop_prefix (p <> s) p ≡ s)
unfolding has_prefix drop_prefix
trim_prefix-append String.[] s = rw nil-append (refl, refl)
trim_prefix-append (String.◌∷◌ c p) s = rw cons-append (ground (arith, trim_prefix-append p s))

trimmed :
    (header p : String) → (trim_prefix header p ≡ header) ⊎ (header ≡ p <> trim_prefix header p)
unfolding trim_prefix
trimmed header p = ground (arith, has_prefix-append header p)

bearer_trimmed : (header p s : String) → header ≡ p <> s → trim_prefix header p ≡ s
unfolding trim_prefix
bearer_trimmed header p s e = rw (e, (trim_prefix-append p s).0) (trim_prefix-append p s).1

module _ {A : Type 0} (refuse : Response → A) (secret header : String) (next : A) where
  -- With a shared secret set, either the request is passed on, and then its header is `Bearer ` and
  -- the secret or the secret alone; or it is answered with status 401, and then its header is not
  -- `Bearer ` and the secret.
  pub auth_decides :
      secret ≢ ""
      → ((auth refuse secret header next ≡ next)
          × ((header ≡ "Bearer " <> secret) ⊎ (header ≡ secret)))
        ⊎ ((auth refuse secret header next ≡ refuse (failed_with 401 "unauthorized"))
            × (header ≢ "Bearer " <> secret))
  unfolding auth
  auth_decides h = elim (string_dec (trim_prefix header "Bearer ") secret) [
    | yes same ↦ inl (ground arith, from_trimmed same (trimmed header "Bearer "))
    | no differ ↦ inr (ground arith, λ e. differ (bearer_trimmed header "Bearer " secret e))
  ]
    where
      from_trimmed :
          trim_prefix header "Bearer " ≡ secret
          → (trim_prefix header "Bearer " ≡ header)
            ⊎ (header ≡ "Bearer " <> trim_prefix header "Bearer ")
          → (header ≡ "Bearer " <> secret) ⊎ (header ≡ secret)
      from_trimmed same (inl whole) = inr (sym whole ∙ same)
      from_trimmed same (inr cut) = inl (cut ∙ ap (λ s. "Bearer " <> s) same)
