-- ===== src/Gate/Signatures.antt =====
-- `is_server_overloaded_error`: which errors park a task at the gate.
use pigeon_cli.Base.{ℕ, ◌≡◌, refl, Bool, true, false, List, [], ◌∷◌, map}
use pigeon_cli.Base.Lists.{any}
use pigeon_cli.Base.Strings.{contains}
use pigeon_cli.Base.Ascii.{codes, to_lower}

abbrev pub server_overloaded_signatures : List (List ℕ)
server_overloaded_signatures =
    codes "too many simultaneous connections"
    ∷ codes "too many connections"
    ∷ codes "too many requests"
    ∷ codes "try again later"
    ∷ codes "temporarily unavailable"
    ∷ codes "server unavailable"
    ∷ codes "over quota"
    ∷ codes "rate limit"
    ∷ codes "throttl"
    ∷ []

unfoldable pub is_server_overloaded_error : List ℕ → Bool
unfolding to_lower contains
is_server_overloaded_error error =
    any (λ signature. contains signature (map to_lower error)) server_overloaded_signatures

overloaded_run :
    (is_server_overloaded_error (codes "failed to connect: Too many simultaneous connections")
      ≡ true)
    × (is_server_overloaded_error (codes "LOGIN failed: invalid credentials") ≡ false)
unfolding is_server_overloaded_error
overloaded_run = (refl, refl)
