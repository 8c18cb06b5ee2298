-- ===== src/Json/Value.antt =====
-- JSON values. Numbers are integers: fractions are left out. The keys of an object are distinct in
-- the program; where a statement needs that, it says so.
use jaa.Prelude.{Bool, String, ℤ}

mutual
  pub data Json : Type 0 where
    null : Json
    bool : Bool → Json
    num : ℤ → Json
    str : String → Json
    arr : Items → Json
    obj : Fields → Json

  pub data Items : Type 0 where
    nil : Items
    cons : Json → Items → Items

  pub data Fields : Type 0 where
    end : Fields
    field : String → Json → Fields → Fields
