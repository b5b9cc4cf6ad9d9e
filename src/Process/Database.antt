-- ===== src/Process/Database.antt =====
-- internal/pkg/db/db.go
use Prim.Native.String.{char_at}
use vergo.Prelude.{
  ℕ, zero, suc, ◌/◌, ◌%◌, String, Bool, true, false, Option, none, some, List, [], ◌∷◌, ltb,
  if◌then◌else◌,
}
use vergo.Prelude.Int.{ℤ, pos, negsuc}
use vergo.Prelude.Text.{append}
use vergo.Config.{Config}
use vergo.Db.{Res, ok, err}
use vergo.Process.{
  Proc, Failure, Pool, Answers, Call, Level, call, note, attempt, or_fail, ◌>>=◌, ◌>>◌,
}

-- The decimal digits of n, of which there are fewer than suc n.
decimal : ℕ → ℕ → String
decimal zero n = ""
decimal (suc fuel) n =
    let last = String.◌∷◌ (char_at "0123456789" (n % 10)) "" in
    let rest = decimal fuel (n / 10) in if ltb n 10 then last else append rest last

-- %d
unfoldable pub itoa : ℤ → String
unfolding decimal
itoa (pos n) = decimal (suc n) n
itoa (negsuc n) = append "-" (decimal (suc (suc n)) (suc n))

abbrev concat : List String → String
concat [] = ""
concat (s ∷ rest) = append s (concat rest)

unfoldable pub dsn : Config → String
unfolding itoa
dsn cfg = concat (
    "host="
    ∷ cfg.db_host
    ∷ " port="
    ∷ itoa cfg.db_port
    ∷ " user="
    ∷ cfg.db_user
    ∷ " password="
    ∷ cfg.db_pass
    ∷ " dbname="
    ∷ cfg.db_name
    ∷ " sslmode="
    ∷ cfg.db_ssl
    ∷ [])

abbrev pub is_no_change : Option Failure → Bool
is_no_change (some Failure.no_change) = true
is_no_change _ = false

-- `err != nil && err != migrate.ErrNoChange`
abbrev pub up_error : Res Failure (Unit {0}) → Res Failure (Unit {0})
up_error (err Failure.no_change) = ok tt
up_error r = r

-- The error that a call returned, nil where it succeeded.
abbrev pub error_of : Res Failure (Unit {0}) → Option Failure
error_of (ok a) = none
error_of (err e) = some e

module _ (answer : Answers) where
  unfoldable pub open_database : Pool → Config → Proc Failure (Unit {0})
  unfolding dsn
  open_database pool cfg = call answer (Call.open_database pool (dsn cfg))

  -- The `err` of m.Up() is declared by its `if`. The test behind it reads the one that
  -- migrate.NewWithInstance returned.
  abbrev pub logged : Option Failure → Proc Failure (Unit {0})
  logged e =
      if is_no_change e
      then note (Call.log Level.info "migrations up to date")
      else note (Call.log Level.info "migrations applied successfully")

  unfoldable pub run_migrations : Proc Failure (Unit {0})
  run_migrations = do
    or_fail (Failure.wrapped "erro ao criar driver de migrations")
        (call answer Call.new_migration_driver)
    or_fail (Failure.wrapped "erro ao carregar migrations do embed")
        (call answer Call.load_migrations)
    created ← attempt {F = Failure} (call answer Call.new_migrations)
    or_fail (Failure.wrapped "erro ao criar instância de migrate") (λ calls. (created, calls))
    up ← attempt {F = Failure} (call answer Call.migrate_up)
    or_fail (Failure.wrapped "erro ao executar migrations") (λ calls. (up_error up, calls))
    logged (error_of created)
