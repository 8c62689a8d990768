-- ===== src/Swaps/Untouched.antt =====
-- A swap stays within its own tables: of the setups it changes nothing but hardware values, and it
-- never changes an original value.
pub mod Writes
pub mod Decisions
pub mod Calls
use reservation_tool.Base.{
  ℕ, ◌≡◌, refl, ap, ◌∙◌, inl, inr, Bool, true, false, ◌&&◌, Option, some, none, List, [], ◌∷◌, ◌++◌,
  map, ◌==◌, arith, find, is_some, Option-cases, Bool-cases, Text, if◌then◌else◌,
}
use reservation_tool.Db.Rows.{
  SwapRequest, Field, Setup, SetupHardwareBaseline, Journal, CustomField, User, TemplateColumn, Db,
}
use reservation_tool.Db.Transaction.{and_then_keeps, checked_keeps}
use reservation_tool.Core.Errors.{AppError, Result, ok, err}
use reservation_tool.Core.Settings.{Env}
use reservation_tool.Core.Status.{swap_pending}
use reservation_tool.Swaps.Access.{get_swap}
use reservation_tool.Hardware.{
  get_baseline, ensure_fixed_baseline, get_custom, ensure_custom_baseline, field_of,
}
use reservation_tool.Templates.{list_columns_for_product}
use reservation_tool.Templates.Values.{Dict, validate_and_serialize_values}
use reservation_tool.Templates.Writing.{
  column_named, upsert_value, upsert_all, store_values, set_setup_values,
}
use reservation_tool.Swaps.Columns.{column_names}
use reservation_tool.Swaps.Exchange.{
  start, any_fixed, get_or_null, maps_of, swap_fixed, swap_custom, swap_column, swap_columns,
  ensure_both, ensure_custom, Loop, write_field, set_value, raw_of, finish_swap, exchange, approve,
  approve_checks, Swap,
}

-- A setup without its hardware values.
abbrev pub bare : Setup → Setup
bare s = record s { hardware = λ _. none }

pub record Untouched (before after : Db) : Type 0 where
  pub users : after.users ≡ before.users
  pub roles : after.roles ≡ before.roles
  pub groups : after.groups ≡ before.groups
  pub products : after.products ≡ before.products
  pub setups : map bare after.setups ≡ map bare before.setups
  pub reservations : after.reservations ≡ before.reservations
  pub borrows : after.borrows ≡ before.borrows
  pub grants : after.grants ≡ before.grants
  pub edges : after.edges ≡ before.edges
  pub columns : after.columns ≡ before.columns
  pub originals :
      (k : ℕ) (b : SetupHardwareBaseline)
      → get_baseline k before.baselines ≡ some b
      → get_baseline k after.baselines ≡ some b
  pub custom_originals :
      (k c : ℕ) (v : CustomField)
      → get_custom k c before.custom_baselines ≡ some v
      → get_custom k c after.custom_baselines ≡ some v
  pub decisions :
      (k : ℕ) (s : SwapRequest)
      → get_swap k before.swaps ≡ some s
      → swap_pending s.status ≡ false
      → get_swap k after.swaps ≡ some s

pub Untouched-refl : (db : Db) → Untouched db db
Untouched-refl db = record {
  users = refl;
  roles = refl;
  groups = refl;
  products = refl;
  setups = refl;
  reservations = refl;
  borrows = refl;
  grants = refl;
  edges = refl;
  columns = refl;
  originals = λ k b e. e;
  custom_originals = λ k c v e. e;
  decisions = λ k s e d. e;
}

pub Untouched-trans : (d e f : Db) → Untouched d e → Untouched e f → Untouched d f
Untouched-trans d e f p q = record {
  users = q.users ∙ p.users;
  roles = q.roles ∙ p.roles;
  groups = q.groups ∙ p.groups;
  products = q.products ∙ p.products;
  setups = q.setups ∙ p.setups;
  reservations = q.reservations ∙ p.reservations;
  borrows = q.borrows ∙ p.borrows;
  grants = q.grants ∙ p.grants;
  edges = q.edges ∙ p.edges;
  columns = q.columns ∙ p.columns;
  originals = λ k b h. q.originals k b (p.originals k b h);
  custom_originals = λ k c v h. q.custom_originals k c v (p.custom_originals k c v h);
  decisions = λ k s h i. q.decisions k s (p.decisions k s h i) i;
}

-- The tables that a swap may write: hardware values, originals that are added, values of custom
-- columns, swaps, the ledger and the journal.
pub writes-Untouched :
    (db after : Db)
    → map bare after.setups ≡ map bare db.setups
    → ((k : ℕ) (b : SetupHardwareBaseline)
        → get_baseline k db.baselines ≡ some b
        → get_baseline k after.baselines ≡ some b)
    → ((k c : ℕ) (v : CustomField)
        → get_custom k c db.custom_baselines ≡ some v
        → get_custom k c after.custom_baselines ≡ some v)
    → ((k : ℕ) (s : SwapRequest)
        → get_swap k db.swaps ≡ some s
        → swap_pending s.status ≡ false
        → get_swap k after.swaps ≡ some s)
    → Untouched db (record db {
      setups = after.setups;
      baselines = after.baselines;
      custom_baselines = after.custom_baselines;
      custom_values = after.custom_values;
      swaps = after.swaps;
      change_logs = after.change_logs;
      journal = after.journal;
    })
writes-Untouched db after h p q d = record {
  users = refl;
  roles = refl;
  groups = refl;
  products = refl;
  setups = h;
  reservations = refl;
  borrows = refl;
  grants = refl;
  edges = refl;
  columns = refl;
  originals = p;
  custom_originals = q;
  decisions = d;
}

-- The journal may be written as well.
pub journal-Untouched :
    (db after : Db) (j : Journal) → Untouched db after → Untouched db (record after { journal = j })
journal-Untouched db after j u = Untouched-trans db after _ u (
    writes-Untouched after (record after { journal = j }) refl (λ k b e. e) (λ k c v e. e)
      (λ k s e d. e))

pub if-Untouched :
    (t : Bool) (db after : Db) → Untouched db after → Untouched db (if t then after else db)
if-Untouched true db after u = u
if-Untouched false db after u = Untouched-refl db
