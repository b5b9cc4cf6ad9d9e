-- ===== src/Http/Handlers/Auth/Race.antt =====
-- Two refreshes with one token, whose checks both come before either revocation.
use vergo.Prelude.{
  ℕ, ◌≤◌, String, ◌≡◌, false, none, some, [], arith, inl, inr, Option-cases, sym, ap, ◌∙◌, subst,
}
use vergo.Platform.{Platform}
use vergo.Config.{Config}
use vergo.Auth.RefreshStore.{is_valid, revoke}
use vergo.Repo.Tokens.{is_token}
use vergo.Db.{World, Act, Res, Res-cases, ok, err, pure, raise, lift, or_fail, ◌>>=◌}
use vergo.Domain.User.Memory.Relation.{Distinct}
use vergo.Http.Gin.{Response, Handler, serve, answered}
use vergo.Http.Handlers.Auth.{
  RefreshReq, refresh_claims, rotate, refresh, invalid_refresh, valid_user,
}
use vergo.Http.Handlers.Auth.Rotation.{world-refresh_claims}
use vergo.Http.Handlers.Auth.SingleUse.{world-is_valid}
use vergo.Http.Handlers.Auth.Pairs.{
  Signs, Ready, Ready-revoke, Ready-reissue, reissue_answers, is_token-update, reissued, signed,
  revoking_rest, access_of, refresh_of,
}

module _ (p : Platform) (cfg : Config) (req : RefreshReq) where
  -- A refresh up to its revocation.
  abbrev check : Act Response (String × String)
  check = do
    claims ← refresh_claims p cfg req.refresh_token
    found ← or_fail (λ _. invalid_refresh) (is_valid p claims.id req.refresh_token)
    v ← lift (valid_user found)
    pure (claims.id, v.user_id)

  -- The rest of it.
  abbrev finish : Res Response (String × String) → Handler
  finish (ok (jti, uid)) = rotate p cfg jti uid
  finish (err e) = raise e

  -- Two checks are done: the first request is finished, then the second.
  abbrev finish_both :
      Res Response (String × String) → Res Response (String × String) × World → Response × Response
  finish_both a (b, w) = let (r, v) = serve (finish a) w in (r, (serve (finish b) v).0)

  abbrev check_again : Res Response (String × String) × World → Response × Response
  check_again (a, w) = finish_both a (check w)

  -- The answers to two requests with the token, of which both are checked first.
  abbrev pub overlapped : World → Response × Response
  overlapped w = check_again (check w)

  -- One request is a check and what it leads to.
  refresh-check : (w : World) → refresh p cfg (some req) w ≡ finish (check w).0 (check w).1
  unfolding refresh
  refresh-check w = elim (Res-cases (refresh_claims p cfg req.refresh_token w).0) [
    | inr (e, x) ↦ ground (arith, x)
    | inl (c, x) ↦
        elim (Res-cases
          (is_valid p c.id req.refresh_token (refresh_claims p cfg req.refresh_token w).1).0) [
            | inr (e, y) ↦ ground (arith, x, y)
            | inl (none, y) ↦ ground (arith, x, y)
            | inl (some v, y) ↦ ground (arith, x, y)
          ]
  ]

  same_world : (w : World) → w.faults ≡ [] → (check w).1 ≡ w
  same_world w f = elim (Res-cases (refresh_claims p cfg req.refresh_token w).0) [
    | inr (e, x) ↦ ground (arith, x, world-refresh_claims p cfg req.refresh_token w)
    | inl (c, x) ↦ elim (Res-cases (is_valid p c.id req.refresh_token w).0) [
      | inr (e, y) ↦ ground (
        arith,
        x,
        y,
        world-refresh_claims p cfg req.refresh_token w,
        world-is_valid p cfg req c.id w f,
      )
      | inl (none, y) ↦ ground (
        arith,
        x,
        y,
        world-refresh_claims p cfg req.refresh_token w,
        world-is_valid p cfg req c.id w f,
      )
      | inl (some v, y) ↦ ground (
        arith,
        x,
        y,
        world-refresh_claims p cfg req.refresh_token w,
        world-is_valid p cfg req c.id w f,
      )
    ]
  ]

  check_fails : (w : World) (e : Response) → (check w).0 ≡ err e → e ≡ invalid_refresh
  unfolding refresh_claims
  check_fails w e h =
      elim (Option-cases (p.parse_jwt w.now req.refresh_token cfg.jwt_refresh_secret)) [
        | inl x ↦ ground (arith, h, x)
        | inr (c, x) ↦ elim (Res-cases (is_valid p c.id req.refresh_token w).0) [
          | inr (e, y) ↦ ground (arith, h, x, y)
          | inl (none, y) ↦ ground (arith, h, x, y)
          | inl (some v, y) ↦ ground (arith, h, x, y)
        ]
      ]

  checked :
      (w : World)
      → w.faults ≡ []
      → (serve (refresh p cfg (some req)) w).0.status ≡ 200
      → (jti uid : String) × (check w ≡ (ok (jti, uid), w))
        × ((serve (rotate p cfg jti uid) w).0.status ≡ 200)
  checked w f h = elim (Res-cases (check w).0) [
    | inr (e, x) ↦ absurd (ground (arith, h, x, check_fails w e x, refresh-check w))
    | inl ((jti, uid), x) ↦
        let same : check w ≡ (ok (jti, uid), w) =
          ap (λ a. (a, (check w).1)) x ∙ ap (λ v. (ok (jti, uid), v)) (same_world w f) in
        let whole : refresh p cfg (some req) w ≡ rotate p cfg jti uid w =
          refresh-check w ∙ ap (λ y. finish y.0 y.1) same in
        (
          jti,
          uid,
          same,
          ap (λ (y : Res Response Response × World). (answered y.0).status) (sym whole) ∙ h,
        )
  ]

  module _ (s : Signs p) where
    -- A rotation that is answered with a pair had what it needs.
    rotated-Ready :
        (jti uid : String) (w : World)
        → w.faults ≡ []
        → ((k : ℕ) → w.drawn ≤ k → is_token w.db (p.uuid k) ≡ false)
        → (serve (rotate p cfg jti uid) w).0.status ≡ 200
        → Ready p cfg s jti uid w
    unfolding rotate
    rotated-Ready jti uid w f fresh h =
        let v = (revoke jti w).1 in
        let (f', n, u, t) = revoking_rest p cfg s jti w f in
        let (at, a) = signed p cfg s (access_of p cfg s uid v) cfg.jwt_access_secret in
        let (rt, b) = signed p cfg s (refresh_of p cfg s uid v) cfg.jwt_refresh_secret in
        let needed = reissued p cfg s jti uid at rt v a b f' h in
        record {
          healthy = f;
          user = ground (arith, u, needed.0);
          token =
              ground (arith, t, needed.1, is_token-update p cfg s jti jti w.now w.refresh_tokens);
          fresh = fresh;
        }

    rotated_twice :
        (d : Distinct p) (jti uid : String) (w : World)
        → Ready p cfg s jti uid w
        → (serve (rotate p cfg jti uid) (rotate p cfg jti uid w).1).0.status ≡ 200
    unfolding rotate
    rotated_twice d jti uid w h = reissue_answers p cfg s jti uid _ (
        Ready-revoke p cfg s jti jti uid _
          (Ready-reissue p cfg s d jti uid _ (Ready-revoke p cfg s jti jti uid w h)))

    -- A refresh token can be exchanged twice: where a refresh would be answered with 200 and two
    -- requests with the token are both checked before either of them revokes it, each of them is
    -- answered with 200. The statements are answered, every token can be signed, no identifier is
    -- drawn twice, and none that is drawn later is that of a token.
    pub overlapped_lem :
        (w : World)
        → Distinct p
        → w.faults ≡ []
        → ((k : ℕ) → w.drawn ≤ k → is_token w.db (p.uuid k) ≡ false)
        → (serve (refresh p cfg (some req)) w).0.status ≡ 200
        → ((overlapped w).0.status ≡ 200) × ((overlapped w).1.status ≡ 200)
    overlapped_lem w d f fresh h =
        let (jti, uid, e, st) = checked w f h in
        let ready = rotated-Ready jti uid w f fresh st in
        let same : overlapped w ≡ finish_both (ok (jti, uid)) (ok (jti, uid), w) =
          ap check_again e ∙ ap (finish_both (ok (jti, uid))) e in
        subst (λ (x : Response × Response). (x.0.status ≡ 200) × (x.1.status ≡ 200)) (sym same)
          (st, rotated_twice d jti uid w ready)
