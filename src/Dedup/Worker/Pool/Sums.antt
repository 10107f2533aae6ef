-- ===== src/Dedup/Worker/Pool/Sums.antt =====
-- Sums over the workers, and over what they still have to do, when one of them takes a step.
use pigeon_cli.Base.{ℕ, zero, suc, ◌+◌, ◌≡◌, refl, Bool, true, ◌||◌, List, [], ◌∷◌, ◌++◌, arith}
use pigeon_cli.Base.Lists.{any}
use pigeon_cli.Dedup.Worker.{QueueItem, Effect}
use pigeon_cli.Dedup.Worker.Pool.{Worker, repeat, at_queue, holding, working, finishing}

abbrev pub sum_of {ℓ} : {A : Type ℓ} → (A → ℕ) → List A → ℕ
sum_of f [] = 0
sum_of f (x ∷ xs) = f x + sum_of f xs

pub sum_of-append {ℓ} :
    {A : Type ℓ} (f : A → ℕ) (xs ys : List A) → sum_of f (xs ++ ys) ≡ sum_of f xs + sum_of f ys
sum_of-append f [] ys = omega arith
sum_of-append f (x ∷ xs) ys = ground (arith, sum_of-append f xs ys)

pub any-append {ℓ} :
    {A : Type ℓ} (f : A → Bool) (xs ys : List A) → any f (xs ++ ys) ≡ (any f xs || any f ys)
any-append f [] ys = refl
any-append f (x ∷ xs) ys = ground (arith, any-append f xs ys)

-- What a worker adds to a sum: what its item counts, or what the effects that it still has count.
abbrev pub owed : (QueueItem → ℕ) → (Effect → ℕ) → Worker → ℕ
owed f g (holding item) = f item
owed f g (working item) = f item
owed f g (finishing es) = sum_of g es
owed f g _ = 0

abbrev pub nothing_held : QueueItem → ℕ
nothing_held item = 0

module _ (before after : List Worker) (x y : Worker) where
  pub sum_of-change :
      (f : Worker → ℕ)
      → sum_of f (before ++ (y ∷ after)) + f x ≡ sum_of f (before ++ (x ∷ after)) + f y
  sum_of-change f =
      ground (arith, sum_of-append f before (y ∷ after), sum_of-append f before (x ∷ after))

  pub any-change : (f : Worker → Bool) → f y ≡ true → any f (before ++ (y ∷ after)) ≡ true
  any-change f h = ground (arith, any-append f before (y ∷ after))

  pub any-same :
      (f : Worker → Bool)
      → f x ≡ f y
      → any f (before ++ (y ∷ after)) ≡ any f (before ++ (x ∷ after))
  any-same f h = ground (arith, any-append f before (y ∷ after), any-append f before (x ∷ after))

pub repeat-none : (f : Worker → ℕ) (n : ℕ) → f at_queue ≡ 0 → sum_of f (repeat n) ≡ 0
repeat-none f zero h = refl
repeat-none f (suc n) h = ground (arith, repeat-none f n h)
