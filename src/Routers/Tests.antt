-- ===== src/Routers/Tests.antt =====
-- The theorems on the routers at two providers, and on the retries at one that fails.
use aethercore.Prelude.{ℕ, ◌+◌, refl, [], ◌∷◌, select}
use aethercore.Prelude.Int.{pos}
use aethercore.Prelude.Result.{err}
use aethercore.Prelude.Text.{codes}
use aethercore.Routers.{
  Provider, Providers, Sort, healthy, cheaper, prior, is_candidate, select_cheapest,
}
use aethercore.Prelude.Sorting.{Sorted}
use aethercore.Routers.Choice.{Cheapest, select_cheapest-Cheapest}

-- The world counts the attempts; the provider always fails.
abbrev local : Provider ℕ
local = record {
  name = codes "ollama";
  status = healthy;
  priority = pos 1;
  metadata = record { cost_per_1k_tokens = 0; latency_millis = pos 200; capability_rank = pos 5 };
  execute = λ task w. (err (codes "busy"), w + 1);
}

abbrev remote : Provider ℕ
remote = record local {
  name = codes "gpt";
  priority = pos 2;
  metadata = record {
    cost_per_1k_tokens = 30;
    latency_millis = pos 2000;
    capability_rank = pos 10;
  };
}

abbrev both : Providers ℕ
both = local ∷ remote ∷ []

-- The providers stand in order already.
abbrev as_is : Sort ℕ
as_is less ps = ps

by_price : Sorted cheaper (select (is_candidate (pos 1)) both) both
unfolding cheaper is_candidate
by_price = record {
  kept = λ P h. h;
  complete = λ P h. h;
  size = refl;
  ordered = ((refl, tt), (tt, tt));
}

cheap_list :
    Sorted cheaper
      (select (is_candidate (pos 1)) both)
      (as_is cheaper (select (is_candidate (pos 1)) both))
unfolding cheaper is_candidate
cheap_list = by_price

by_priority : Sorted prior both (as_is prior both)
unfolding prior
by_priority = record {
  kept = λ P h. h;
  complete = λ P h. h;
  size = refl;
  ordered = ((refl, tt), (tt, tt));
}

select_cheapest-Cheapest_example : Cheapest (pos 1) both (select_cheapest as_is (pos 1) both)
select_cheapest-Cheapest_example = select_cheapest-Cheapest as_is (pos 1) both cheap_list
