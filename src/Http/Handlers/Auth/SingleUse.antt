-- ===== src/Http/Handlers/Auth/SingleUse.antt =====
-- A refresh token is good for one rotation.
use vergo.Prelude.{
  ℕ, String, Bool, List, Option, none, some, [], ◌≡◌, sym, ap, subst, ◌∙◌, inl, inr, arith,
  Option-cases,
}
use vergo.Platform.{Platform, Claims}
use vergo.Config.{Config}
use vergo.Db.{World, ok, Res-cases}
use vergo.Db.Rows.{RefreshToken}
use vergo.Auth.RefreshStore.{ValidToken, is_valid}
use vergo.Auth.RefreshStore.Revocation.{IsRevoked, revoke-marks, is_valid_revoked, is_valid_iff}
use vergo.Http.Gin.{serve}
use vergo.Http.Handlers.Auth.{RefreshReq, refresh_claims, rotate, refresh, invalid_refresh}
use vergo.Http.Handlers.Auth.History.{Arrival, run, arrive}
use vergo.Http.Handlers.Auth.Rotation.{reissue-Revoked, IsRevoked-for_ever}

-- A token holds its claims: at whatever instant it is accepted, they are the same.
pub record ClaimsFixed (p : Platform) (secret : String) : Type 0 where
  pub same :
      (s t : ℕ) (token : String) (c d : Claims)
      → p.parse_jwt s token secret ≡ some c
      → p.parse_jwt t token secret ≡ some d
      → c ≡ d

module _ (p : Platform) (cfg : Config) (req : RefreshReq) where
  abbrev claims_at : ℕ → Option Claims
  claims_at now = p.parse_jwt now req.refresh_token cfg.jwt_refresh_secret

  -- What a successful rotation went through.
  rotation :
      (w : World)
      → (serve (refresh p cfg (some req)) w).0.status ≡ 200
      → (c : Claims) × (v : ValidToken) × (claims_at w.now ≡ some c)
        × ((is_valid p c.id req.refresh_token w).0 ≡ ok (some v))
        × ((serve (refresh p cfg (some req)) w).1
            ≡ (rotate p cfg c.id v.user_id (is_valid p c.id req.refresh_token w).1).1)
  unfolding refresh refresh_claims
  rotation w h = elim (Option-cases (claims_at w.now)) [
    | inl e ↦ absurd (ground arith)
    | inr (c, e) ↦ elim (Res-cases (is_valid p c.id req.refresh_token w).0) [
      | inl (none, x) ↦ absurd (ground arith)
      | inl (some v, x) ↦ (c, v, e, x, ground arith)
      | inr (x, y) ↦ absurd (ground arith)
    ]
  ]

  -- A token whose row is revoked is refused.
  pub refused :
      (v : World) (c : Claims) (row : RefreshToken)
      → ((d : Claims) → claims_at v.now ≡ some d → c ≡ d)
      → IsRevoked c.id row v.refresh_tokens
      → (serve (refresh p cfg (some req)) v).0 ≡ invalid_refresh
  unfolding refresh refresh_claims
  refused v c row fixed h = elim (Option-cases (claims_at v.now)) [
    | inl e ↦ ground arith
    | inr (d, e) ↦ elim (Res-cases (is_valid p d.id req.refresh_token v).0) [
      | inl (none, x) ↦ ground arith
      | inl (some t, x) ↦ absurd (
          is_valid_revoked p d.id req.refresh_token v row t
            (subst (λ (d : Claims). IsRevoked d.id row v.refresh_tokens) (fixed d e) h) x)
      | inr (x, y) ↦ ground arith
    ]
  ]

  pub world-is_valid :
      (id : String) (w : World) → w.faults ≡ [] → (is_valid p id req.refresh_token w).1 ≡ w
  unfolding is_valid
  world-is_valid id w f = ground arith

  -- After a rotation whose statements are answered, the row of the token is revoked.
  pub rotation-revokes :
      (w : World)
      → w.faults ≡ []
      → (serve (refresh p cfg (some req)) w).0.status ≡ 200
      → (c : Claims) × (claims_at w.now ≡ some c)
        × (row : RefreshToken) × IsRevoked c.id row
            (serve (refresh p cfg (some req)) w).1.refresh_tokens
  unfolding rotate
  rotation-revokes w f h =
      let (c, v, e, valid, after) = rotation w h in
      let (row, found, _, _, _, _) = (is_valid_iff p c.id req.refresh_token w v f).0 valid in
      let (row', revoked) = revoke-marks c.id w row f found in
      let kept = (reissue-Revoked p cfg c.id row' c.id v.user_id).at _ revoked in
      (
        c,
        e,
        row',
        subst (λ (x : World). IsRevoked c.id row' x.refresh_tokens)
            (ap (λ (x : World). (rotate p cfg c.id v.user_id x).1) (sym (world-is_valid c.id w f))
              ∙ sym after)
            kept,
      )

  -- A refresh token is good for one rotation: once it has been exchanged for a new pair, with the
  -- statements answered, it is refused with 401, after any requests to the authentication handlers,
  -- at any later instant and whatever the driver does. (A token's claims are the same whenever it is
  -- parsed.)
  refreshed_once :
      (w : World) (arrivals : List Arrival) (now : ℕ) (faults : List Bool)
      → ClaimsFixed p cfg.jwt_refresh_secret
      → w.faults ≡ []
      → (serve (refresh p cfg (some req)) w).0.status ≡ 200
      → (serve
          (refresh p cfg (some req))
          (arrive now faults (run p cfg arrivals (serve (refresh p cfg (some req)) w).1))).0
        ≡ invalid_refresh
  refreshed_once w arrivals now faults fixed f h =
      let (c, e, row, revoked) = rotation-revokes w f h in
      refused _ c row (λ d x. fixed.same w.now now req.refresh_token c d e x)
        (IsRevoked-for_ever p cfg c.id row arrivals _ revoked)
