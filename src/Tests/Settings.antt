-- ===== src/Tests/Settings.antt =====
-- The settings and the store in memory at concrete inputs.
use arda_wed_gateway.Base.{◌≡◌, Option, none, some, List, [], ◌∷◌, if◌then◌else◌}
use arda_wed_gateway.Base.Text.{Text, codes}
use arda_wed_gateway.Base.Word.{ℤ, negsuc}
use arda_wed_gateway.Config.{load}
use arda_wed_gateway.Config.Limits.{IsUsable, load-IsUsable}
use arda_wed_gateway.State.{Delta, is_nil, get_latest}
use arda_wed_gateway.State.Latest.{upsert_all, IsLatest, upsert_all-IsLatest}

-- Every variable is set to -5.
abbrev odd_environment : Text → Text
odd_environment key = codes "-5"

abbrev minus_five : Text → Option ℤ
minus_five text = some (negsuc 4)

load-IsUsable_example : IsUsable (load odd_environment minus_five minus_five)
load-IsUsable_example = load-IsUsable odd_environment minus_five minus_five

abbrev armed : Delta
armed = record {
  location = [];
  prompt = none;
  status_tags = [];
  equipment = (codes "wield", codes "sword") ∷ [];
}

abbrev moved : Delta
moved = record { location = codes "square"; prompt = none; status_tags = []; equipment = [] }

abbrev deltas : List (Text × Delta)
deltas = (codes "s-1", moved) ∷ (codes "s-1", armed) ∷ []

upsert_all-IsLatest_example :
    (get_latest (upsert_all deltas)
      ≡ (if is_nil deltas then none else some (upsert_all deltas).snapshot))
    × IsLatest deltas (upsert_all deltas).snapshot
upsert_all-IsLatest_example = upsert_all-IsLatest deltas
