-- ===== src/Generator/Main.antt =====
-- `main` of inputgenerator/inputgenerator.cpp. TCLAP parses the command line and admits the three
-- data types only; `none` for an option says that it is not set. A text that goes to `cerr` is a
-- constructor.
use hyperlogloglog.Base.{
  ℕ, ◌≡◌, ◌↔◌, arith, Bool, true, false, not, ◌&&◌, Option, none, some, List, if◌then◌else◌,
}
use hyperlogloglog.Common.ByteOrder.{ByteOrder}
use hyperlogloglog.Generator.{Random, Reals, generate_uint64, generate_str, generate_jr}

pub data DataType : Type 0 where
  uint64 str jr : DataType

abbrev pub is_str : DataType → Bool
is_str str = true
is_str _ = false

abbrev pub is_jr : DataType → Bool
is_jr jr = true
is_jr _ = false

abbrev pub is_set {ℓ} : {A : Type ℓ} → Option A → Bool
is_set none = false
is_set (some a) = true

abbrev pub value_of : Option ℕ → ℕ
value_of none = 0
value_of (some n) = n

pub record Arguments : Type 0 where
  pub help : Bool
  pub n : ℕ
  pub dt : DataType
  pub seed : ℕ
  pub m : Option ℕ
  pub len : Option ℕ

pub data Complaint : Type 0 where
  argument_error m_without_jr jr_without_m len_without_str str_without_len : Complaint

-- What a run does: print its usage, fail with a message, or write bytes.
pub data Outcome : Type 0 where
  usage : Outcome
  failed : Complaint → Outcome
  wrote : List ℕ → Outcome

module _ {ℓ κ} {R : Type ℓ} {F : Type κ} (random : Random R F) (reals : Reals F) (o : ByteOrder)
    (seeded : ℕ → R) where
  unfoldable pub generate : Arguments → List ℕ
  generate a = elim a.dt [
    | uint64 ↦ generate_uint64 random reals o (seeded a.seed) a.n
    | str ↦ generate_str random reals o (seeded a.seed) a.n (value_of a.len)
    | jr ↦ generate_jr random reals o (seeded a.seed) a.n (value_of a.m)
  ]

  -- `none` is an exception of the parser.
  unfoldable pub main : Option Arguments → Outcome
  main none = failed argument_error
  main (some a) =
      if a.help
      then usage
      else if is_set a.m && not (is_jr a.dt)
      then failed m_without_jr
      else if not (is_set a.m) && is_jr a.dt
      then failed jr_without_m
      else if is_set a.len && not (is_str a.dt)
      then failed len_without_str
      else if not (is_set a.len) && is_str a.dt
      then failed str_without_len
      else wrote (generate a)

  -- The `main` of the generator writes what it generates exactly if its arguments ask for no
  -- help, set the number of registers exactly for pairs, and the length exactly for strings.
  pub generator_main_iff :
      (a : Arguments)
      → (main (some a) ≡ wrote (generate a))
        ↔ ((a.help ≡ false) × (is_set a.m ≡ is_jr a.dt) × (is_set a.len ≡ is_str a.dt))
  unfolding main
  generator_main_iff a = ground arith
