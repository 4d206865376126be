-- ===== src/Processor/Tests.antt =====
-- A concrete processor, with value trees as association lists.
use phonepostmix.Base.{
  ℕ, ◌≡◌, refl, arith, Bool, false, bytes_eq, bytes_eq_refl, if◌then◌else◌, List, [], ◌∷◌,
}
use phonepostmix.Base.Int.{pos}
use phonepostmix.Http.{bytes}
use phonepostmix.Ring.{AudioBuffer}
use phonepostmix.Ring.Counting.{counting}
use phonepostmix.Wire.Hundredths.{hundredths}
use phonepostmix.Engine.Tests.{live}
use phonepostmix.Engine.Addresses.Order.{count}
use phonepostmix.Engine.Addresses.Tests.{strings}
use phonepostmix.Engine.Clients.Tests.{plain_json}
use phonepostmix.Engine.Pairing.Tests.{texts}
use phonepostmix.Engine.Service.Tests.{idle}
use phonepostmix.Processor.{
  Processor, ValueTreeOps, state_tag, get_state_information, set_state_information,
}
use phonepostmix.Processor.State.{
  ValueTreeLaws, restored, set_state_information-get_state_information, saved_address_lost,
}

data Value : Type 0 where
  int : ℕ → Value
  text : List ℕ → Value
  boolean : Bool → Value

record Tree : Type 0 where
  tag : List ℕ
  properties : List (List ℕ × Value)

look_up : List (List ℕ × Value) → List ℕ → Value → Value
look_up [] wanted default = default
look_up ((name, v) ∷ properties) wanted default =
    let rest = look_up properties wanted default in if bytes_eq name wanted then v else rest

as_int : Value → ℕ
as_int (int n) = n
as_int (text t) = 0
as_int (boolean b) = 0

as_text : Value → List ℕ
as_text (int n) = []
as_text (text t) = t
as_text (boolean b) = []

as_bool : Value → Bool
as_bool (int n) = false
as_bool (text t) = false
as_bool (boolean b) = b

abbrev trees : ValueTreeOps
trees = record {
  Tree = Tree;
  Var = Value;
  Data = Tree;
  new_tree = λ tag. record { tag = tag; properties = [] };
  has_type = λ t tag. bytes_eq t.tag tag;
  set_property = λ t name v. record t { properties = (name, v) ∷ t.properties };
  get_property = λ t name default. look_up t.properties name default;
  write_to_stream = λ t. t;
  read_from_data = λ t. t;
  of_int = int;
  of_text = text;
  of_bool = boolean;
  to_int = as_int;
  to_text = as_text;
  to_bool = as_bool;
}

trees-ValueTreeLaws : ValueTreeLaws trees
unfolding look_up as_int as_text as_bool
trees-ValueTreeLaws = record {
  type_of_new = bytes_eq_refl;
  type_of_set = λ t name tag v. refl;
  get_set = λ t name v default. ground (arith, bytes_eq_refl name);
  get_other = λ t name other v default apart. ground arith;
  read_write = λ t. refl;
  int_lem = λ n. refl;
  text_lem = λ t. refl;
  bool_lem = λ b. refl;
}

abbrev saved : Processor counting hundredths plain_json strings texts
saved = record {
  engine = record idle { streaming = live; addresses = bytes "10.0.0.4" ∷ [] };
  start_failed = false;
}

-- Before the first start, with an address from a project.
abbrev reopened : Processor counting hundredths plain_json strings texts
reopened = record {
  engine = record idle { preferred_address = bytes "10.0.0.4" };
  start_failed = false;
}

set_state_information-get_state_information_example :
    (set_state_information counting hundredths plain_json strings texts trees
        (get_state_information counting hundredths plain_json strings texts trees saved)
        reopened
      ≡ restored counting hundredths plain_json strings texts trees trees-ValueTreeLaws saved
          reopened)
    × (bytes_eq [] state_tag ≡ false
        → set_state_information counting hundredths plain_json strings texts trees
            (record { tag = []; properties = [] })
            reopened
          ≡ (reopened, [], false))
set_state_information-get_state_information_example =
    set_state_information-get_state_information counting hundredths plain_json strings texts trees
      trees-ValueTreeLaws saved reopened (record { tag = []; properties = [] }) tt

saved_address_lost_example :
    as_text (
      look_up
        (get_state_information counting hundredths plain_json strings texts trees
          reopened).properties
        (bytes "address")
        (text []))
    ≡ []
unfolding count
saved_address_lost_example =
    saved_address_lost counting hundredths plain_json strings texts trees trees-ValueTreeLaws
      reopened (λ x. refl) refl

-- One input, two outputs.
abbrev block : AudioBuffer hundredths.Float
block = record { channels = 2; frames = 1; sample = λ c i. pos 50 }
