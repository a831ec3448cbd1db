-- ===== src/Tests/Amounts.antt =====
-- Runs of src/utils/math.rs and src/utils/rolling_average.rs.
use foxfire_sniper.Base.{ℕ, ◌%◌, ◌≡◌, List, replicate, length, length-replicate, sum, done, arith}
use foxfire_sniper.Types.{u64_mod}
use foxfire_sniper.Utils.Math.{
  get_dirichlet_distributed_amount, get_dirichlet_distributed_amount-sum,
}

-- Every agent gets the same share, short of the total.
abbrev even : ℕ → ℕ → List ℕ
even n total = replicate n 3

even_each : (n total : ℕ) → length (even n total) ≡ n
even_each n total = length-replicate n 3

get_dirichlet_distributed_amount-sum_example :
    (ys : List ℕ) × (get_dirichlet_distributed_amount even 10 3 ≡ done ys)
    × (sum ys % u64_mod ≡ 10)
    × (length ys ≡ 3)
get_dirichlet_distributed_amount-sum_example =
    get_dirichlet_distributed_amount-sum even 10 3 even_each (omega arith) (omega arith)
