-- ===== src/Tests/Accounts.antt =====
-- A run of calls of both services of users.
use vergo.Prelude.{
  ℕ, zero, suc, ◌<◌, String, ◌==◌, ◌≡◌, refl, ap, false, [], ◌∷◌, arith, All, List, ==_of_ne,
}
use vergo.Platform.{Platform}
use vergo.Db.{World}
use vergo.Domain.User.Memory.{new_memory}
use vergo.Domain.User.Memory.Refinement.{Call, Agrees, run, run_lem}
use Prim.Native.Char.{code}
use vergo.Http.Handlers.Auth.{refresh}
use vergo.Http.Handlers.Auth.Race.{overlapped, overlapped_lem}
use vergo.Tests.Sample.{machine, config, platform, world, tables}

-- Identifiers that are as long as their number.
abbrev unary : ℕ → String
unary zero = ""
unary (suc n) = String.◌∷◌ "u" (unary n)

abbrev accounts : Platform
accounts = record platform { uuid = unary }

abbrev size : String → ℕ
size String.[] = 0
size (String.◌∷◌ c s) = suc (size s)

size-unary : (n : ℕ) → size (unary n) ≡ n
size-unary zero = refl
size-unary (suc n) = ap suc (size-unary n)

unary_apart : (j k : ℕ) → j < k → (unary j == unary k) ≡ false
unary_apart j k h =
    ==_of_ne (unary j) (unary k) (λ e. omega (arith, h, ap size e, size-unary j, size-unary k))

abbrev empty : World
empty = record world { db = record tables { users = [] } }

abbrev calls : List Call
calls =
    Call.signup "ana@x" "pw"
    ∷ Call.signup "ana@x" "other"
    ∷ Call.login "ana@x" "pw"
    ∷ Call.update_password "u" "bnew"
    ∷ Call.update_password "nobody" "bnew"
    ∷ Call.login "ana@x" "new"
    ∷ Call.get_by_id "u"
    ∷ Call.get_by_email "bob@x"
    ∷ []

run_lem_example : All Agrees (run accounts calls (new_memory, empty))
run_lem_example =
    run_lem accounts calls empty (λ n. refl, (λ n. refl, (tt, (tt, (tt, (tt, (tt, (tt, tt))))))))
      (record { apart = unary_apart }) refl refl

abbrev first_code : String → ℕ
first_code String.[] = 0
first_code (String.◌∷◌ c s) = code c

j1_apart : (k : ℕ) → ("j1" == unary k) ≡ false
j1_apart zero = refl
j1_apart (suc k) = ==_of_ne "j1" (unary (suc k)) (λ e. absurd (omega (arith, ap first_code e)))

-- The token of ana is checked twice and exchanged twice.
overlapped_lem_example :
    ((overlapped accounts config (record { refresh_token = "rt-ana" }) world).0.status ≡ 200)
    × ((overlapped accounts config (record { refresh_token = "rt-ana" }) world).1.status ≡ 200)
unfolding refresh machine
overlapped_lem_example =
    overlapped_lem accounts config (record { refresh_token = "rt-ana" })
      (record { signs = λ c s. refl }) world (record { apart = unary_apart }) refl
      (λ k l. ground (arith, j1_apart k)) refl
