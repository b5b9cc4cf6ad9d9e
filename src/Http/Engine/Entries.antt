-- ===== src/Http/Engine/Entries.antt =====
-- What a request leaves in the log, and what its client gets.
use vergo.Prelude.{ℕ, Bool, true, false, ◌||◌, [], ◌∷◌, ◌++◌, ◌≡◌, refl, arith, leb, sym, subst}
use vergo.Process.{Level}
use vergo.Http.Gin.{Request, Response, Body, reply, no_keys}
use vergo.Http.Middleware.RateLimit.{rate_limit}
use vergo.Http.Middleware.Logging.{Entry, Line, SpanContext, request_entry}
use vergo.Http.Middleware.Recover.{
  Outcome, Site, Chain, responded, panicked, recovered, panic_reply, panic_entry,
}
use vergo.Http.Engine.{serve, logged}

abbrev pub is_error : Level → Bool
is_error Level.error = true
is_error _ = false

abbrev pub has_panicked : Outcome → Bool
has_panicked (responded _) = false
has_panicked (panicked _ _) = true

module _ (line : Line) (r : Request) (outer inner : SpanContext) (now later : ℕ) where
  -- The limiter's verdict, and the site that the route finds.
  abbrev pub verdict : Site → Bool
  verdict s = (rate_limit r no_keys now later s.limiter).0.0

  abbrev pub entered : Site → Site
  entered s = record s { limiter = (rate_limit r no_keys now later s.limiter).1 }

  -- What Logging and Recover do behind a route.
  abbrev finished : Outcome × Site → Outcome × Site
  finished (o, s) = recovered line outer (logged line r inner o s).0 (logged line r inner o s).1

  abbrev Finishes : Outcome × Site → Outcome × Site → Type 0
  Finishes (o, s) (o', s') =
      (resp : Response) × (e : Entry) × (o' ≡ responded resp)
      × (s'.entries ≡ s.entries ++ e ∷ [])
      × (is_error e.level ≡ leb 500 resp.status || has_panicked o)
      × (s'.world ≡ s.world)

  finished-Finishes : (o : Outcome) (s : Site) → Finishes (o, s) (finished (o, s))
  unfolding request_entry
  finished-Finishes (responded resp) s =
      (resp, request_entry line r inner resp.status, refl, refl, ground arith, refl)
  finished-Finishes (panicked written error) s =
      (panic_reply written, panic_entry line outer error, refl, refl, ground arith, refl)

  module _ (route : Chain) (s : Site) where
    serve-finished :
        verdict s ≡ true → serve line r outer inner now later route s ≡ finished (route (entered s))
    unfolding serve
    serve-finished h = ground (arith, h)

    -- A request that the limiter admits is answered, also where its route panics, and leaves one entry
    -- behind those of its route. The entry has the level of an error exactly when the status is 500
    -- or more, or the route panicked. The world is the one that the route left.
    pub serve-admitted :
        verdict s ≡ true
        → (resp : Response) × (e : Entry) × ((serve line r outer inner now later route s).0
            ≡ responded resp)
          × ((serve line r outer inner now later route s).1.entries
              ≡ (route (entered s)).1.entries ++ e ∷ [])
          × (is_error e.level ≡ leb 500 resp.status || has_panicked (route (entered s)).0)
          × ((serve line r outer inner now later route s).1.world ≡ (route (entered s)).1.world)
    serve-admitted h =
        subst (Finishes (route (entered s))) (sym (serve-finished h))
          (finished-Finishes (route (entered s)).0 (route (entered s)).1)

    -- A request that the limiter refuses is answered with 429, does not reach its route, and leaves
    -- the log and the world as they were.
    pub serve-refused :
        verdict s ≡ false
        → ((serve line r outer inner now later route s).0
            ≡ responded (reply 429 (Body.error "rate_limit_exceeded")))
          × ((serve line r outer inner now later route s).1.entries ≡ s.entries)
          × ((serve line r outer inner now later route s).1.world ≡ s.world)
    unfolding serve
    serve-refused h = ground (arith, h)
