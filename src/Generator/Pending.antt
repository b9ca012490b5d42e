-- ===== src/Generator/Pending.antt =====
-- The IDs of the limit orders that are made, and the cancels that name them.
use nexus_bench.Base.{
  some-injective, subst, sym, ap, refl, ◌<◌, ◌≢◌, ◌^◌, none, eq_iff, pos, ◌&&◌, ℕ, suc, ◌+◌, ◌≤◌,
  String, Bool, true, false, some, List, [], ◌∷◌, ◌≡◌, inl, inr, arith, ltb, length, sum_of-append,
  count_if, Bool-cases, Option-cases, str_eq, if◌then◌else◌,
}
use nexus_bench.Base.Float.{FloatOps}
use nexus_bench.Base.Strings.{str_append}
use nexus_bench.Base.Text.{TextOps, text, number}
use nexus_bench.Fleet.{Order, RandomGeneratorConfig}
use nexus_bench.Orderbook.{market, next_seq, limit, cancel, OrderKind}
use nexus_bench.Generator.{
  Draws, RandomGenerator, limit_order, market_order, new_random_generator, next, next_cancel,
  order_id, take_pending, track,
}
use nexus_bench.Generator.Buffer.{occurrences, one, take_pending-occurrences}

abbrev is_limit : OrderKind → Bool
is_limit limit = true
is_limit _ = false

abbrev is_cancel : OrderKind → Bool
is_cancel cancel = true
is_cancel _ = false

-- How many limit orders have an ID, and how many cancels name it.
abbrev pub limits : String → List Order → ℕ
limits id = count_if λ o. is_limit o.kind && str_eq o.id id

abbrev pub cancels : String → List Order → ℕ
cancels id = count_if λ o. is_cancel o.kind && str_eq o.id id

module _ (F : FloatOps) (T : TextOps) where
  -- The orders of some calls of `Next`, up to a panic.
  unfoldable pub orders_of : RandomGenerator F → List (Draws F) → List Order
  orders_of g [] = []
  orders_of g (d ∷ ds) = elim (next F T g d) [ none ↦ [] | some (g', o) ↦ o ∷ orders_of g' ds ]

  -- The ID that a bot gives to an order.
  abbrev pub name : String → ℕ → String
  name bot_id n = T.sprintf "%s-%d" (text bot_id ∷ number (pos n) ∷ [])

  -- What `%s-%d` gives for one bot: other numbers give other texts, and each ends in its number.
  pub record HasOwnNames (bot_id : String) : Type 0 where
    pub distinct : (m n : ℕ) → name bot_id m ≡ name bot_id n → m ≡ n
    pub not_made_up : (m n : ℕ) → str_append (name bot_id m) "-unknown" ≢ name bot_id n

  track-occurrences :
      (id own : String) (ids : List String)
      → occurrences id (track F T own ids) ≤ occurrences id ids + one own id
  track-occurrences id own ids = elim (Bool-cases (ltb (length ids) 1000)) [
    | inl e ↦ rw (track, e) (omega (arith, sum_of-append (λ s. one s id) ids (own ∷ [])))
    | inr e ↦ rw (track, e) (omega arith)
  ]

  -- What one order does: it moves the sequence on, names itself after it if it is a limit order, and takes
  -- out of the buffer what it cancels.
  abbrev Accounts : ℕ → RandomGenerator F → RandomGenerator F → Order → Type 0
  Accounts n g g' o =
      (g'.bot_id ≡ g.bot_id)
      × (g'.seq ≡ next_seq g.seq)
      × (limits (name g.bot_id n) (o ∷ []) ≤ one (order_id F T g) (name g.bot_id n))
      × (cancels (name g.bot_id n) (o ∷ []) + occurrences (name g.bot_id n) g'.pending_ids
          ≤ occurrences (name g.bot_id n) g.pending_ids + limits (name g.bot_id n) (o ∷ []))

  next_cancel-Accounts :
      (n : ℕ) (g : RandomGenerator F) (d : Draws F)
      → HasOwnNames g.bot_id
      → let counted : RandomGenerator F = record g { seq = next_seq g.seq } in
        let r = next_cancel F T counted (order_id F T g) d in Accounts n g r.0 r.1
  next_cancel-Accounts n g d names = elim (Option-cases (take_pending d.index g.pending_ids)) [
    | inl t ↦
        rw (next_cancel, t)
          (
            refl,
            refl,
            omega arith,
            ground (
              arith,
              names.not_made_up (next_seq g.seq) n,
              eq_iff (str_append (order_id F T g) "-unknown") (name g.bot_id n),
            ),
          )
    | inr ((target, rest), t) ↦
        rw (next_cancel, t)
          (
            refl,
            refl,
            omega arith,
            omega (
              arith,
              take_pending-occurrences d.index (name g.bot_id n) target g.pending_ids rest t,
            ),
          )
  ]

  limit_order-kind :
      (g : RandomGenerator F) (d : Draws F) (o : Order)
      → limit_order F g.cfg (order_id F T g) d ≡ some o
      → (o.kind ≡ limit) × (o.id ≡ order_id F T g)
  limit_order-kind g d o e = ground (arith, e)

  market_order-kind :
      (g : RandomGenerator F) (d : Draws F) (o : Order)
      → market_order F g.cfg (order_id F T g) d ≡ some o
      → o.kind ≡ market
  market_order-kind g d o e = ground (arith, e)

  next-Accounts :
      (n : ℕ) (g g' : RandomGenerator F) (d : Draws F) (o : Order)
      → HasOwnNames g.bot_id
      → next F T g d ≡ some (g', o)
      → Accounts n g g' o
  unfolding next
  next-Accounts n g g' d o names e = elim (Bool-cases (F.lt d.roll g.cfg.ratios.limit)) [
    | inl r ↦ elim (Option-cases (limit_order F g.cfg (order_id F T g) d)) [
      | inl k ↦ absurd (cc (rw (next, r, k) at e))
      | inr (x, k) ↦
          let (kind, id) = limit_order-kind g d x k in
          subst (λ (p : RandomGenerator F × Order). Accounts n g p.0 p.1)
            (some-injective (rw (next, r, k) at e))
            (
              refl,
              refl,
              ground (arith, kind, id),
              ground (
                arith,
                kind,
                id,
                track-occurrences (name g.bot_id n) (order_id F T g) g.pending_ids,
              ),
            )
    ]
    | inr r ↦ elim (Bool-cases (F.lt d.roll (F.add g.cfg.ratios.limit g.cfg.ratios.market))) [
      | inl m ↦ elim (Option-cases (market_order F g.cfg (order_id F T g) d)) [
        | inl k ↦ absurd (cc (rw (next, r, m, k) at e))
        | inr (x, k) ↦
            subst (λ (p : RandomGenerator F × Order). Accounts n g p.0 p.1)
              (some-injective (rw (next, r, m, k) at e))
              (
                refl,
                refl,
                ground (arith, market_order-kind g d x k),
                ground (arith, market_order-kind g d x k),
              )
      ]
      | inr m ↦
          subst (λ (p : RandomGenerator F × Order). Accounts n g p.0 p.1)
            (some-injective (rw (next, r, m) at e)) (next_cancel-Accounts n g d names)
    ]
  ]

  -- All that is said of one ID over some calls.
  abbrev Named : String → ℕ → RandomGenerator F → List Order → Type 0
  Named bot_id n g os =
      (limits (name bot_id n) os ≤ (if ltb g.seq n then 1 else 0))
      × (cancels (name bot_id n) os
          ≤ occurrences (name bot_id n) g.pending_ids + limits (name bot_id n) os)

  once :
      (n : ℕ) (g g' : RandomGenerator F) (o : Order) (rest : ℕ)
      → HasOwnNames g.bot_id
      → g'.seq ≡ next_seq g.seq
      → suc g.seq < 2 ^ 64
      → limits (name g.bot_id n) (o ∷ []) ≤ one (order_id F T g) (name g.bot_id n)
      → rest ≤ (if ltb g'.seq n then 1 else 0)
      → limits (name g.bot_id n) (o ∷ []) + rest ≤ (if ltb g.seq n then 1 else 0)
  once n g g' o rest names seq h l ls =
      let small : g'.seq ≡ suc g.seq = omega (arith, seq, h) in
      elim (Bool-cases (str_eq (order_id F T g) (name g.bot_id n))) [
        | inl s ↦
            let k : next_seq g.seq ≡ n =
              names.distinct (next_seq g.seq) n ((eq_iff (order_id F T g) (name g.bot_id n)).0 s) in
            ground (arith, small, seq, k, l, ls)
        | inr s ↦
            let z : one (order_id F T g) (name g.bot_id n) ≡ 0 = rw s refl in
            ground (arith, small, z, l, ls)
      ]

  orders_of-Named :
      (n : ℕ) (g : RandomGenerator F) (ds : List (Draws F))
      → HasOwnNames g.bot_id
      → g.seq + length ds < 2 ^ 64
      → Named g.bot_id n g (orders_of g ds)
  unfolding orders_of
  orders_of-Named n g [] names h = (omega arith, omega arith)
  orders_of-Named n g (d ∷ ds) names h = elim (Option-cases (next F T g d)) [
    | inl e ↦ rw (orders_of, e) (omega arith, omega arith)
    | inr ((g', o), e) ↦
        let (bot, seq, l, c) = next-Accounts n g g' d o names e in
        let (ls, cs) =
          subst (λ (b : String). Named b n g' (orders_of g' ds)) bot
            (orders_of-Named n g' ds (subst HasOwnNames (sym bot) names) (omega (arith, seq, h))) in
        rw (orders_of, e)
          (
            omega (
              arith,
              once n g g' o (limits (name g.bot_id n) (orders_of g' ds)) names seq
                  (omega (arith, h)) l ls,
            ),
            omega (arith, c, cs),
          )
  ]

  new_generator :
      (bot_id : String) (cfg : RandomGeneratorConfig F) (g : RandomGenerator F)
      → new_random_generator F bot_id cfg ≡ some g
      → (g.bot_id ≡ bot_id) × (g.seq ≡ 0) × (g.pending_ids ≡ [])
  unfolding new_random_generator
  new_generator bot_id cfg g e = ground (arith, e)

  -- Where `%s-%d` gives other texts for other numbers, none of which is another with "-unknown" behind it: in fewer than
  -- 2^64 calls of `Next` on a new generator, each of the bot's IDs is given to at most one limit order, and
  -- named by at most as many cancels. So no order is cancelled twice, and none that was not made before.
  pub cancels-limits :
      (bot_id : String) (cfg : RandomGeneratorConfig F) (g : RandomGenerator F)
      (ds : List (Draws F)) (n : ℕ)
      → HasOwnNames bot_id
      → new_random_generator F bot_id cfg ≡ some g
      → length ds < 2 ^ 64
      → let id = name bot_id n in
        (cancels id (orders_of g ds) ≤ limits id (orders_of g ds))
        × (limits id (orders_of g ds) ≤ 1)
  cancels-limits bot_id cfg g ds n names e h =
      let (bot, seq, empty) = new_generator bot_id cfg g e in
      let (l, c) =
        subst (λ (b : String). Named b n g (orders_of g ds)) bot
          (orders_of-Named n g ds (subst HasOwnNames (sym bot) names) (omega (arith, seq, h))) in
      (omega (arith, c, ap (occurrences (name bot_id n)) empty), ground (arith, l))
