-- ===== src/Tests/Reputation.antt =====
-- One node that is slashed three times, with scores counted in hundredths.
use abundance_protocol.Prelude.{
  ℕ, ◌+◌, ◌-◌, ◌*◌, ◌/◌, ◌≡◌, refl, none, List, [], ◌∷◌, true, false, arith, ltb, if◌then◌else◌,
}
use abundance_protocol.Reputation.{Fractions, Manager, new_score, new_metadata}
use abundance_protocol.Reputation.Tasks.{abandoned}
use abundance_protocol.Reputation.Slashing.{is_banned, SlashForm, by_amount, by_percentage, slash}
use abundance_protocol.Reputation.Queries.{get_score, is_eligible}
use abundance_protocol.Reputation.Bans.{
  Call, registers, completes, fails, stakes, decays, asks, IsOut, run,
}
use abundance_protocol.Reputation.Bans.Lasting.{ban_lasts}
use abundance_protocol.Reputation.Bans.Threshold.{HasSlashes, Slash, slash_all, slash_all-IsOut}

abbrev pub hundredths : Fractions ℕ
hundredths = record {
  add = λ a b. a + b;
  sub = λ a b. a - b;
  mul = λ a b. a * b / 100;
  div = λ a b. a * 100 / b;
  floor = λ a. a / 100 * 100;
  less = ltb;
  max = λ a b. if ltb a b then b else a;
  min = λ a b. if ltb b a then b else a;
  nan = 0;
  lit = λ n d. n * 100 / d;
}

abbrev one_node : Manager ℕ
one_node = record {
  scores = (7, new_score hundredths 7 1) ∷ [];
  metadata = (7, new_metadata hundredths 0 1) ∷ [];
  ip_registry = [];
  config = record {
    decay_rate = 0;
    slash_penalty = 10;
    min_stake = 0;
    stake_slash_percent = 25;
    jump_detection_window = 24;
    jump_threshold = 20;
    slash_threshold = 3;
  };
}

abbrev three_slashes : List (Slash ℕ)
three_slashes = (by_percentage, 1, 2) ∷ (by_amount 50, 2, 3) ∷ (by_percentage, 3, 4) ∷ []

one_node-HasSlashes : HasSlashes 7 0 one_node
one_node-HasSlashes = record {
  score = new_score hundredths 7 1;
  scored = refl;
  counted = omega arith;
  meta = new_metadata hundredths 0 1;
  noted = refl;
}

slash_all-IsOut_example : IsOut 7 (slash_all hundredths 7 three_slashes one_node)
slash_all-IsOut_example =
    slash_all-IsOut hundredths 7 0 three_slashes one_node one_node-HasSlashes (omega arith)
      (omega arith)

abbrev banned_node : Manager ℕ
banned_node = record one_node {
  metadata = (7, record (new_metadata hundredths 0 1) { banned = true }) ∷ [];
}

banned_node-IsOut : IsOut 7 banned_node
unfolding is_banned
banned_node-IsOut = record { known = refl; banned = refl }

abbrev later_calls : List (Call ℕ)
later_calls =
    registers 7 5 10
    ∷ registers 8 5 11
    ∷ completes 7 500 300 2 12
    ∷ fails 8 abandoned 13
    ∷ stakes 7 100000 14
    ∷ decays 99
    ∷ asks 7 100
    ∷ []

ban_lasts_example :
    (get_score 7 (run hundredths later_calls banned_node) ≡ none)
    × ((least : ℕ)
        → is_eligible hundredths 7 least (run hundredths later_calls banned_node) ≡ false)
    × ((form : SlashForm ℕ) (reason now : ℕ)
        → slash hundredths 7 form reason now (run hundredths later_calls banned_node)
          ≡ (false, run hundredths later_calls banned_node))
ban_lasts_example = ban_lasts hundredths 7 later_calls banned_node tt banned_node-IsOut
