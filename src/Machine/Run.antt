-- ===== src/Machine/Run.antt =====
-- A command over the memory. It ends with a value, by a throw whose handler does not return, or not
-- at all.
use mush_os.Base.{ℕ, ◌≡◌, ap}
use mush_os.Machine.{Mem}

pub data Run (A : Type 0) : Type 0 where
  ok : A → Mem → Run A
  thrown : ℕ → Mem → Run A
  stuck : Run A

abbrev pub Cmd : Type 0 → Type 0
Cmd A = Mem → Run A

abbrev pub pure : {A : Type 0} → A → Cmd A
pure a m = ok a m

module _ {A B : Type 0} where
  abbrev pub and_then : Run A → (A → Cmd B) → Run B
  and_then (ok a m) k = k a m
  and_then (thrown e m) k = thrown e m
  and_then stuck k = stuck

  infixl 5 ◌>>=◌ ◌>>◌
  abbrev pub ◌>>=◌ : Cmd A → (A → Cmd B) → Cmd B
  c >>= k = λ m. and_then (c m) k

  abbrev pub ◌>>◌ : Cmd A → Cmd B → Cmd B
  c >> d = c >>= λ _. d

module _ {A : Type 0} where
  value_or : A → Run A → A
  value_or d (ok a m) = a
  value_or d (thrown e m) = d
  value_or d stuck = d

  memory_or : Mem → Run A → Mem
  memory_or d (ok a m) = m
  memory_or d (thrown e m) = m
  memory_or d stuck = d

  pub ok-injective : {a b : A} {m g : Mem} → ok a m ≡ ok b g → (a ≡ b) × (m ≡ g)
  unfolding value_or memory_or
  ok-injective {a} {m} e = (ap (value_or a) e, ap (memory_or m) e)
