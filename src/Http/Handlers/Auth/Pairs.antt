-- ===== src/Http/Handlers/Auth/Pairs.antt =====
-- When a rotation is answered with a new pair.
use vergo.Prelude.{
  ℕ, ◌+◌, ◌≤◌, ◌*◌, String, ◌==◌, ◌≡◌, refl, true, false, none, some, List, [], ◌∷◌, ◌++◌, arith,
  inl, inr, ◌||◌, Option-cases, is_some,
}
use vergo.Table.{find, update}
use vergo.Table.Laws.{find-update, find-append}
use vergo.Prelude.Int.{add_units}
use vergo.Platform.{Platform, Claims}
use vergo.Config.{Config}
use vergo.Auth.Jwt.{new_access_token, new_refresh_token, minute, hour}
use vergo.Auth.RefreshStore.{save_refresh, revoke}
use vergo.Repo.Tokens.{unrevoked_id, revoked, is_token}
use vergo.Repo.Orgs.{is_user}
use vergo.Db.{World}
use vergo.Db.Rows.{RefreshToken}
use vergo.Domain.User.Memory.Relation.{Distinct}
use vergo.Http.Gin.{serve}
use vergo.Http.Handlers.Auth.{reissue}

-- Every token can be signed.
pub record Signs (p : Platform) : Type 0 where
  pub signs : (c : Claims) (secret : String) → is_some (p.sign_jwt c secret) ≡ true

module _ (p : Platform) (cfg : Config) (s : Signs p) where
  abbrev pub access_of : String → World → Claims
  access_of uid w = record {
    user_id = uid;
    token_type = "access";
    id = p.uuid w.drawn;
    issued_at = p.numeric_date w.now;
    expires_at = p.numeric_date (add_units w.now cfg.jwt_access_ttl_minutes minute);
  }

  abbrev pub refresh_of : String → World → Claims
  refresh_of uid w = record {
    user_id = uid;
    token_type = "refresh";
    id = p.uuid (w.drawn + 1);
    issued_at = p.numeric_date w.now;
    expires_at = p.numeric_date (add_units w.now cfg.jwt_refresh_ttl_days (24 * hour));
  }

  -- The tokens are signed and one statement is left.
  reissue_lem :
      (jti uid at rt : String) (w : World)
      → p.sign_jwt (access_of uid w) cfg.jwt_access_secret ≡ some at
      → p.sign_jwt (refresh_of uid w) cfg.jwt_refresh_secret ≡ some rt
      → w.faults ≡ []
      → is_user w.db uid ≡ true
      → is_token w.db jti ≡ true
      → is_token w.db (p.uuid (w.drawn + 1)) ≡ false
      → (serve (reissue p cfg jti uid) w).0.status ≡ 200
  unfolding reissue new_access_token new_refresh_token save_refresh
  reissue_lem jti uid at rt w a b f u t n = ground (arith, a, b, f, u, t, n)

  -- What a pair that was issued needed and left.
  pub reissued :
      (jti uid at rt : String) (w : World)
      → p.sign_jwt (access_of uid w) cfg.jwt_access_secret ≡ some at
      → p.sign_jwt (refresh_of uid w) cfg.jwt_refresh_secret ≡ some rt
      → w.faults ≡ []
      → (serve (reissue p cfg jti uid) w).0.status ≡ 200
      → (is_user w.db uid ≡ true)
        × (is_token w.db jti ≡ true)
        × ((reissue p cfg jti uid w).1.faults ≡ [])
        × ((reissue p cfg jti uid w).1.drawn ≡ w.drawn + 1 + 1)
        × ((reissue p cfg jti uid w).1.users ≡ w.users)
        × (row : RefreshToken) × (row.id ≡ p.uuid (w.drawn + 1))
        × ((reissue p cfg jti uid w).1.refresh_tokens ≡ w.refresh_tokens ++ row ∷ [])
  unfolding reissue new_access_token new_refresh_token save_refresh
  reissued jti uid at rt w a b f h = (
    ground (arith, a, b, f, h),
    ground (arith, a, b, f, h),
    ground (arith, a, b, f, h),
    ground (arith, a, b, f, h),
    ground (arith, a, b, f, h),
    record {
      id = p.uuid (w.drawn + 1);
      user_id = uid;
      token_hash = p.sha256_hex rt;
      expires_at = add_units w.now cfg.jwt_refresh_ttl_days (24 * hour);
      revoked_at = none;
      rotated_from = some jti;
      created_at = w.now;
    },
    refl,
    ground (arith, a, b, f, h),
  )

  pub is_token-update :
      (id jti : String) (now : ℕ) (rows : List RefreshToken)
      → is_some (find (λ r. r.id == id) (update (unrevoked_id jti) (revoked now) rows))
        ≡ is_some (find (λ r. r.id == id) rows)
  is_token-update id jti now rows =
      ground
        (arith, find-update (λ r. r.id == id) (unrevoked_id jti) (revoked now) rows (λ x. refl))

  is_token-append :
      (id : String) (rows : List RefreshToken) (row : RefreshToken)
      → is_some (find (λ r. r.id == id) (rows ++ row ∷ []))
        ≡ (is_some (find (λ r. r.id == id) rows) || row.id == id)
  unfolding find
  is_token-append id rows row = ground (arith, find-append (λ r. r.id == id) rows (row ∷ []))

  -- What the statements of a rotation need.
  pub record Ready (jti uid : String) (w : World) : Type 0 where
    pub healthy : w.faults ≡ []
    pub user : is_user w.db uid ≡ true
    pub token : is_token w.db jti ≡ true
    pub fresh : (k : ℕ) → w.drawn ≤ k → is_token w.db (p.uuid k) ≡ false

  abbrev pub revoking : String → World → World
  revoking jti w = (revoke jti w).1

  pub revoking_rest :
      (jti : String) (w : World)
      → w.faults ≡ []
      → ((revoking jti w).faults ≡ [])
        × ((revoking jti w).drawn ≡ w.drawn)
        × ((revoking jti w).users ≡ w.users)
        × ((revoking jti w).refresh_tokens
            ≡ update (unrevoked_id jti) (revoked w.now) w.refresh_tokens)
  unfolding revoke
  revoking_rest jti w f =
      (ground (arith, f), ground (arith, f), ground (arith, f), ground (arith, f))

  pub Ready-revoke :
      (old jti uid : String) (w : World) → Ready jti uid w → Ready jti uid (revoking old w)
  Ready-revoke old jti uid w h =
      let (f, d, u, t) = revoking_rest old w h.healthy in
      record {
        healthy = f;
        user = ground (arith, u, h.user);
        token = ground (arith, t, h.token, is_token-update jti old w.now w.refresh_tokens);
        fresh = λ k l. ground (
          arith,
          t,
          d,
          h.fresh k (omega (arith, l, d)),
          is_token-update (p.uuid k) old w.now w.refresh_tokens,
        );
      }

  pub signed : (c : Claims) (secret : String) → (t : String) × (p.sign_jwt c secret ≡ some t)
  signed c secret = elim (Option-cases (p.sign_jwt c secret)) [
    | inl e ↦ absurd (ground (arith, e, s.signs c secret))
    | inr x ↦ x
  ]

  pub reissue_answers :
      (jti uid : String) (w : World)
      → Ready jti uid w
      → (serve (reissue p cfg jti uid) w).0.status ≡ 200
  reissue_answers jti uid w h =
      let (at, a) = signed (access_of uid w) cfg.jwt_access_secret in
      let (rt, b) = signed (refresh_of uid w) cfg.jwt_refresh_secret in
      reissue_lem jti uid at rt w a b h.healthy h.user h.token (h.fresh (w.drawn + 1) (omega arith))

  pub Ready-reissue :
      (d : Distinct p) (jti uid : String) (w : World)
      → Ready jti uid w
      → Ready jti uid (reissue p cfg jti uid w).1
  Ready-reissue d jti uid w h =
      let (at, a) = signed (access_of uid w) cfg.jwt_access_secret in
      let (rt, b) = signed (refresh_of uid w) cfg.jwt_refresh_secret in
      let (_, _, f, n, u, row, i, t) =
        reissued jti uid at rt w a b h.healthy (reissue_answers jti uid w h) in
      record {
        healthy = f;
        user = ground (arith, u, h.user);
        token = ground (arith, t, h.token, is_token-append jti w.refresh_tokens row);
        fresh = λ k l. ground (
          arith,
          t,
          i,
          n,
          is_token-append (p.uuid k) w.refresh_tokens row,
          h.fresh k (omega (arith, l, n)),
          d.apart (w.drawn + 1) k (omega (arith, l, n)),
        );
      }
