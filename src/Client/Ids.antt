-- ===== src/Client/Ids.antt =====
-- Request ids: no two calls share one, and none looks like a heartbeat's.
use mini_rpc.Prelude.{
  ℕ, ◌+◌, ◌%◌, ◌^◌, ◌≤◌, ◌<◌, ◌≡◌, refl, true, false, [], ◌∷◌, arith, lookup, eq_iff, none,
  starts_with,
}
use mini_rpc.Io.{to_string}
use mini_rpc.Io.Decimal.{to_string_inj, to_string-apart}
use mini_rpc.Pending.{fresh_slot, Slots, add}
use mini_rpc.Client.{Client, next_request_id}

-- Every call in the table has a number from 1 to `k` as its id.
abbrev pub Numbered : ℕ → Slots → Type 0
Numbered k [] = Unit {0}
Numbered k ((id, slot) ∷ slots) =
    ((n : ℕ) × (1 ≤ n) × (n ≤ k) × (id ≡ to_string n)) × Numbered k slots

Numbered-mono : (k m : ℕ) (s : Slots) → k ≤ m → Numbered k s → Numbered m s
Numbered-mono k m [] h n = tt
Numbered-mono k m ((id, slot) ∷ s) h ((n, low, high, e), rest) =
    ((n, low, omega arith, e), Numbered-mono k m s h rest)

number_absent : (k m : ℕ) (s : Slots) → k < m → Numbered k s → lookup (to_string m) s ≡ none
number_absent k m [] h n = refl
number_absent k m ((id, slot) ∷ s) h ((n, low, high, e), rest) =
    ground
      (arith, e, eq_iff (to_string n) (to_string m), to_string_inj n m, number_absent k m s h rest)

-- While the 64-bit counter has not wrapped, the id of the next call is not in the table, so `Add`
-- never refuses it, and the ids in the table are again numbers up to the counter; and a response
-- with that id is not taken for a heartbeat's. (The ids in the table are numbers up to the counter
-- before.)
pub next_request_id-fresh :
    (c : Client)
    → Numbered c.next_id c.slots
    → c.next_id + 1 < 2 ^ 64
    → let (id, c') = next_request_id c in
      let (added, s) = add id c'.slots in
      (added ≡ true)
      × (c'.next_id ≡ c.next_id + 1)
      × Numbered c'.next_id s
      × (starts_with "hb_" id ≡ false)
unfolding next_request_id add
next_request_id-fresh c n small =
    let m : ℕ = (c.next_id + 1) % 2 ^ 64 in
    let e : m ≡ c.next_id + 1 = omega arith in
    let absent : lookup (to_string m) c.slots ≡ none =
      number_absent c.next_id m c.slots (omega arith) n in
    let (named, apart) = to_string-apart m in
    let added : add (to_string m) c.slots ≡ (true, (to_string m, fresh_slot) ∷ c.slots) =
      ground (arith, absent, named) in
    rw added (
      refl,
      e,
      ((m, omega arith, omega arith, refl), Numbered-mono c.next_id m c.slots (omega arith) n),
      apart,
    )
