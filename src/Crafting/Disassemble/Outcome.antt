-- ===== src/Crafting/Disassemble/Outcome.antt =====
-- What DisassembleItem leaves behind.
use brandish_bot_go.Prelude.{
  ℕ, zero, suc, ◌+◌, ◌-◌, ◌*◌, ◌/◌, ◌≤◌, ◌<◌, ◌≡◌, ◌↔◌, ap, ◌∙◌, refl, Bool-cases, inl, inr, Bool,
  true, Option, none, some, List, [], ◌∷◌, ltb, ◌==◌, if◌then◌else◌, arith,
}
use native.Mathlib.Nat.{le-div_iff_mul-le}
use brandish_bot_go.Prelude.Int.{ℤ, pos, pos_part, leb_ℤ, ltb_ℤ}
use brandish_bot_go.Failure.{
  Result, ok, err, insufficient_quantity, invalid_quantity, item_not_found, panic, transact,
  fail_if, required, with_ok, fail_if-eq-ok, required-eq-ok,
}
use brandish_bot_go.Inventory.{Inventory, InventorySlot, QualityLevel, slot, get_total_quantity}
use brandish_bot_go.Inventory.Add.{add_items}
use brandish_bot_go.Inventory.Add.Amounts.{add_items-amount}
use brandish_bot_go.Inventory.Consume.{consume_items}
use brandish_bot_go.Inventory.Consume.Conservation.{amount}
use brandish_bot_go.Inventory.Quality.{calculate_average_quality}
use brandish_bot_go.Crafting.{
  RecipeOutput, DisassembleRecipe, Calls, validate_quantity, validate_platform_input,
  validate_item_name, display_name,
}
use brandish_bot_go.Crafting.Upgrade.{taken_from, average_of}
use brandish_bot_go.Crafting.Upgrade.Materials.{of_item, lucky_count, Paid, material_taken}
use brandish_bot_go.Crafting.Disassemble.{
  validate_disassemble_input, calculate_disassemble_quantity, calculate_perfect_salvage,
  perfect_per_item, total_output, OutputMap, with_output, collect_outputs,
  process_disassemble_outputs, DisassembleResult, execute_disassemble_tx, disassemble_steps,
  disassemble_item,
}

perfect_lem :
    (is_lucky : ℕ → Bool) (n : ℕ)
    → (calculate_perfect_salvage is_lucky n ≡ lucky_count is_lucky n)
      × (calculate_perfect_salvage is_lucky n ≤ n)
unfolding calculate_perfect_salvage
perfect_lem is_lucky zero = (refl, omega arith)
perfect_lem is_lucky (suc n) = ground (arith, perfect_lem is_lucky n)

-- A perfect salvage adds half of the output, rounded up, to the output of any other.
total_output_lem :
    (actual perfect base : ℕ)
    → perfect ≤ actual
    → total_output actual perfect base ≡ actual * base + perfect * ((base + 1) / 2)
unfolding total_output
total_output_lem actual perfect base h =
    let half : perfect_per_item base ≡ base + (base + 1) / 2 = omega arith in
    let rest : ℕ = actual - perfect in
    let split : actual ≡ rest + perfect = omega (arith, h) in
    let all : actual * base ≡ rest * base + perfect * base =
      ap (λ a. a * base) split ∙ grind arith in
    let more : perfect * (base + (base + 1) / 2) ≡ perfect * base + perfect * ((base + 1) / 2) =
      grind arith in
    elim (Bool-cases (ltb 0 perfect)) [
      | inl some_perfect ↦ rw (some_perfect, half) (omega (arith, all, more))
      | inr none_perfect ↦
          let z : perfect ≡ 0 = ground arith in rw (none_perfect, z) (omega (arith, rw z at all))
    ]

-- What the outputs of a recipe add to the slots that a test accepts: for every item that is processed
-- the output, and for a perfect salvage half of it more, rounded up.
abbrev pub gained : (ℕ → QualityLevel → Bool) → List RecipeOutput → ℕ → ℕ → QualityLevel → ℕ
gained p [] actual perfect q = 0
gained p (output ∷ outputs) actual perfect q =
    (if p output.item_id q
      then actual * output.quantity + perfect * ((output.quantity + 1) / 2)
      else 0)
    + gained p outputs actual perfect q

collect_outputs_lem :
    (c : Calls) (names : ℕ → Option ℕ) (actual perfect : ℕ) (q : QualityLevel) (m : OutputMap)
    (outputs : List RecipeOutput) (m' : OutputMap) (added : List InventorySlot)
    → perfect ≤ actual
    → collect_outputs c names actual perfect q m outputs ≡ ok (m', added)
    → (p : ℕ → QualityLevel → Bool) → amount p added ≡ gained p outputs actual perfect q
unfolding collect_outputs
collect_outputs_lem c names actual perfect q m [] m' added le h p =
    let e : [] ≡ added = cc in rw (← e) refl
collect_outputs_lem c names actual perfect q m (output ∷ outputs) m' added le h p =
    with_ok (required (names output.item_id) item_not_found) _ h λ name e1 h1.
      with_ok (collect_outputs c names actual perfect q _ outputs) _ h1 λ rest e2 h2.
        let total : ℕ = total_output actual perfect output.quantity in
        let e : slot output.item_id total q ∷ rest.1 ≡ added = cc in
        let t = total_output_lem actual perfect output.quantity le in
        rw (← e, t)
          (omega (
            arith,
            collect_outputs_lem c names actual perfect q (with_output m (display_name c name) total)
                outputs rest.0 rest.1 le e2 p,
          ))

process_disassemble_outputs_lem :
    (c : Calls) (inv : Inventory) (outputs : List RecipeOutput) (actual perfect : ℕ)
    (q : QualityLevel) (m : OutputMap) (inv' : Inventory)
    → perfect ≤ actual
    → process_disassemble_outputs c inv outputs actual perfect q ≡ ok (m, inv')
    → (p : ℕ → QualityLevel → Bool)
    → amount p inv' ≡ amount p inv + gained p outputs actual perfect q
unfolding process_disassemble_outputs
process_disassemble_outputs_lem c inv outputs actual perfect q m inv' le h p =
    with_ok c.get_items_by_ids _ h λ names e1 h1.
      with_ok (collect_outputs c names actual perfect q (λ k. none) outputs) _ h1 λ collected e2 h2.
        with_ok (required (add_items inv collected.1 none) panic) _ h2 λ inv2 e3 h3.
          let (inv1, f, g) = add_items-amount inv collected.1 in
          let added : inv1 ≡ inv2 = cc (required-eq-ok (add_items inv collected.1 none) panic e3) in
          let stored : inv2 ≡ inv' = cc in
          rw (← stored, ← added)
            (omega (
              arith,
              g p,
              collect_outputs_lem c names actual perfect q _ outputs collected.0 collected.1 le e2
                  p,
            ))

quantity_lem :
    (inv : Inventory) (id consumes requested actual : ℕ)
    → calculate_disassemble_quantity inv id consumes requested ≡ ok actual
    → (0 < consumes)
      × (0 < requested → 0 < actual)
      × ((n : ℕ) → (n ≤ actual) ↔ ((n ≤ requested) × (consumes * n ≤ get_total_quantity inv id)))
unfolding calculate_disassemble_quantity
quantity_lem inv id consumes requested actual h =
    let total : ℕ = get_total_quantity inv id in
    let most : ℕ = total / consumes in
    with_ok (fail_if (consumes == 0) panic) _ h λ u1 e1 h1.
      with_ok (fail_if (most == 0) insufficient_quantity) _ h1 λ u2 e2 h2.
        let divides = fail_if-eq-ok (consumes == 0) panic e1 in
        let enough = fail_if-eq-ok (most == 0) insufficient_quantity e2 in
        let least : (if ltb requested most then requested else most) ≡ actual = cc in
        (
          ground arith,
          λ h3. ground arith,
          λ n.
              let d = le-div_iff_mul-le {k = consumes} {x = n} {y = total} (ground arith) in
              let swapped : n * consumes ≡ consumes * n = grind arith in
              (λ h4. ground (arith, swapped, d.0), λ h4. ground (arith, swapped, d.1)),
        )

-- What taking items apart leaves behind.
pub record Disassembled (inv : Inventory) (item_id : ℕ) (recipe : DisassembleRecipe) (requested : ℕ)
    (is_lucky : ℕ → Bool) (r : DisassembleResult) (inv' : Inventory) : Type 0 where
  pub taken : Inventory
  pub output_quality : QualityLevel
  pub is_most :
      (n : ℕ)
      → (n ≤ r.quantity_processed)
        ↔ ((n ≤ requested) × (recipe.quantity_consumed * n ≤ get_total_quantity inv item_id))
  pub takes_some : 0 < requested → 0 < r.quantity_processed
  pub is_count : r.perfect_salvage_count ≡ lucky_count is_lucky r.quantity_processed
  pub is_perfect : r.is_perfect_salvage ≡ ltb 0 r.perfect_salvage_count
  pub is_average : calculate_average_quality taken ≡ some output_quality
  pub consumes :
      (i : ℕ)
      → amount (of_item i) taken
        ≡ (if item_id == i then recipe.quantity_consumed * r.quantity_processed else 0)
  pub balanced :
      (p : ℕ → QualityLevel → Bool)
      → amount p inv' + amount p taken
        ≡ amount p inv
          + gained p recipe.outputs r.quantity_processed r.perfect_salvage_count output_quality

execute_disassemble_tx-Disassembled :
    (c : Calls) (inv : Inventory) (item_id : ℕ) (recipe : DisassembleRecipe) (requested : ℕ)
    (r : DisassembleResult) (inv' : Inventory)
    → execute_disassemble_tx c inv item_id recipe requested ≡ ok (r, inv')
    → Disassembled inv item_id recipe requested c.is_lucky r inv'
unfolding execute_disassemble_tx
execute_disassemble_tx-Disassembled c inv item_id recipe requested r inv' h =
    let consumed : ℕ = recipe.quantity_consumed in
    with_ok c.begin_tx _ h λ u1 e1 h1. with_ok c.get_inventory _ h1 λ u2 e2 h2.
      with_ok (calculate_disassemble_quantity inv item_id consumed requested) _ h2 λ actual e3 h3.
        with_ok (taken_from (consume_items inv item_id (consumed * actual) (c.picks 0))) _ h3
          λ sources e4 h4. with_ok (average_of sources.0) _ h4 λ quality e5 h5.
            let perfect : ℕ = calculate_perfect_salvage c.is_lucky actual in
            with_ok (process_disassemble_outputs c sources.1 recipe.outputs actual perfect quality)
              _ h5
              λ outputs e6 h6. with_ok c.update_inventory _ h6 λ u7 e7 h7.
                with_ok c.commit _ h7 λ u8 e8 h8.
                  let made : DisassembleResult = record {
                    outputs = outputs.0;
                    quantity_processed = actual;
                    is_perfect_salvage = ltb 0 perfect;
                    perfect_salvage_count = perfect;
                  } in
                  let er : made ≡ r = cc in
                  let ei : outputs.1 ≡ inv' = cc in
                  let (divides, some_made, most) =
                    quantity_lem inv item_id consumed requested actual e3 in
                  let g : Paid inv item_id (consumed * actual) sources.1 sources.0 =
                    material_taken inv item_id (consumed * actual) (c.picks 0) sources.1 sources.0
                      e4 in
                  rw (← er, ← ei)
                    (record {
                      taken = sources.0;
                      output_quality = quality;
                      is_most = most;
                      takes_some = some_made;
                      is_count = (perfect_lem c.is_lucky actual).0;
                      is_perfect = refl;
                      is_average = required-eq-ok (calculate_average_quality sources.0) panic e5;
                      consumes = g.whole;
                      balanced = λ p. omega (
                        arith,
                        g.kept p,
                        process_disassemble_outputs_lem c sources.1 recipe.outputs actual perfect
                            quality outputs.0 outputs.1 (perfect_lem c.is_lucky actual).1 e6 p,
                      );
                    })

module _ (c : Calls) (inv : Inventory) (platform platform_id name : ℕ) (wanted : ℤ) where
  -- What DisassembleItem leaves behind, by how it ends.
  abbrev pub DisassembleOutcome : Result DisassembleResult × Inventory → Type 0
  DisassembleOutcome (err e, inv') = inv' ≡ inv
  DisassembleOutcome (ok r, inv') =
      (item : ℕ) × (recipe : DisassembleRecipe) × (validate_disassemble_input c name
        ≡ ok (item, recipe))
      × (ltb_ℤ (pos 0) wanted ≡ true)
      × Disassembled inv item recipe (pos_part wanted) c.is_lucky r inv'

  -- A disassembly that returns an error leaves the stored inventory as it was. One that succeeds
  -- processes as many items as are asked for and held, at least one: it takes exactly what they
  -- cost of the item alone and adds the outputs, at one and a half times the quantity, rounded up,
  -- for each of them whose draw is lucky, in the average quality of what was taken; nothing else
  -- changes.
  pub disassemble_item-DisassembleOutcome :
      DisassembleOutcome (disassemble_item c inv platform platform_id name wanted)
  unfolding disassemble_item disassemble_steps validate_quantity
  disassemble_item-DisassembleOutcome =
      outcome (disassemble_steps c inv platform platform_id name wanted) refl
    where
      outcome :
          (r : Result (DisassembleResult × Inventory))
          → disassemble_steps c inv platform platform_id name wanted ≡ r
          → DisassembleOutcome (transact inv r)
      outcome (err e) h = refl
      outcome (ok (r, inv')) h = with_ok (validate_quantity wanted) _ h λ requested e1 h1.
          with_ok (validate_platform_input platform platform_id) _ h1 λ u2 e2 h2.
            with_ok (validate_item_name name) _ h2 λ u3 e3 h3.
              with_ok (validate_disassemble_input c name) _ h3 λ input e4 h4.
                with_ok (fail_if (leb_ℤ wanted (pos 0)) invalid_quantity) _ e1 λ u5 e5 h5.
                  let positive = fail_if-eq-ok (leb_ℤ wanted (pos 0)) invalid_quantity e5 in
                  let eq : requested ≡ pos_part wanted = cc in
                  (
                    input.0,
                    input.1,
                    e4,
                    ground arith,
                    execute_disassemble_tx-Disassembled c inv input.0 input.1 (pos_part wanted) r
                        inv' (rw eq at h4),
                  )
