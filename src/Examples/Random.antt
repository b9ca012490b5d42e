-- ===== src/Examples/Random.antt =====
-- A random generator with the default configuration: a limit order, a market order, and a cancel.
use Prim.Native.String.{String, count}
use nexus_bench.Base.{
  ℕ, zero, suc, ◌*◌, ◌^◌, ◌≡◌, ◌≤◌, refl, ap, arith, none, some, List, [], ◌∷◌, map, pos,
}
use nexus_bench.Base.Strings.{count-str_append, str_append}
use nexus_bench.Base.Text.{Arg, TextOps, text, number}
use nexus_bench.Orderbook.{limit, market, cancel}
use nexus_bench.Fleet.{default_random_generator_config}
use nexus_bench.Generator.{Draws, RandomGenerator, new_random_generator, next, price_offset}
use nexus_bench.Generator.Pending.{HasOwnNames, cancels, limits, name, orders_of, cancels-limits}
use nexus_bench.Examples.Floats.{thousandths}

-- Nine characters for each number, so that "-unknown" makes a length that no number has.
ticks : ℕ → String
ticks zero = ""
ticks (suc n) = str_append (ticks n) "|||||||||"

count-ticks : (n : ℕ) → count (ticks n) ≡ n * 9
unfolding ticks
count-ticks zero = refl
count-ticks (suc n) = omega (arith, count-ticks n, count-str_append (ticks n) "|||||||||")

ticks_of : List Arg → String
ticks_of (text bot ∷ number (pos n) ∷ args) = ticks n
ticks_of args = ""

abbrev ticked : TextOps
ticked = record {
  sprintf = λ format args. ticks_of args;
  prefix = λ n s. s;
  format_duration = λ n. "";
}

ticked-HasOwnNames : HasOwnNames thousandths ticked "bot"
unfolding ticks_of
ticked-HasOwnNames = record {
  distinct = λ m n e. omega (arith, ap count e, count-ticks m, count-ticks n);
  not_made_up = λ m n e.
      omega
        (arith, ap count e, count-ticks m, count-ticks n, count-str_append (ticks m) "-unknown");
}

abbrev bot : RandomGenerator thousandths
bot = record {
  cfg = default_random_generator_config thousandths;
  bot_id = "bot";
  seq = 0;
  pending_ids = [];
}

abbrev draws : ℕ → Draws thousandths
draws roll = record { roll = roll; coin = 1; offset = 1000; extra = 99; index = 0 }

abbrev rolls : List (Draws thousandths)
rolls = draws 0 ∷ draws 700 ∷ draws 950 ∷ draws 950 ∷ []

order_kinds :
    map (λ o. o.kind) (orders_of thousandths ticked bot rolls)
    ≡ limit ∷ market ∷ cancel ∷ cancel ∷ []
unfolding orders_of next ticks ticks_of
order_kinds = refl

-- A spread of 2^62, which `NewRandomGenerator` accepts, makes the bound of the draw negative.
wide_spread_panics : price_offset (pos (2 ^ 62)) 0 ≡ none
wide_spread_panics = refl

made_bot :
    new_random_generator thousandths "bot" (default_random_generator_config thousandths) ≡ some bot
unfolding new_random_generator
made_bot = refl

cancels-limits_example :
    (cancels (name thousandths ticked "bot" 1) (orders_of thousandths ticked bot rolls)
      ≤ limits (name thousandths ticked "bot" 1) (orders_of thousandths ticked bot rolls))
    × (limits (name thousandths ticked "bot" 1) (orders_of thousandths ticked bot rolls) ≤ 1)
cancels-limits_example =
    cancels-limits thousandths ticked "bot" (default_random_generator_config thousandths) bot rolls
      1 ticked-HasOwnNames made_bot (omega arith)
