-- ===== src/Types/Item.antt =====
-- Tests and fixtures as discovery finds them, and the issues that it reports.
use tryke.Prelude.{ℕ, Bool, true, false, List, [], ◌++◌, Option, none, some, Text, codes, unwrap_or}
use tryke.Paths.{FilePath}

pub record ExpectedAssertion : Type 0 where
  pub subject : Text
  pub matcher : Text
  pub negated : Bool
  pub args : List Text
  pub line : ℕ
  pub label : Option Text
  pub end_line : ℕ
  pub start_column : Option ℕ
  pub end_column : Option ℕ
  pub expression : Text
  pub subject_span : Option (ℕ × ℕ)
  pub expected_arg_span : Option (ℕ × ℕ)
  pub expected_arg_value : Option Text

pub record TestItem : Type 0 where
  pub name : Text
  pub module_path : Text
  pub file_path : Option FilePath
  pub line_number : Option ℕ
  pub display_name : Option Text
  pub expected_assertions : List ExpectedAssertion
  pub skip : Option Text
  pub todo : Option Text
  pub xfail : Option Text
  pub tags : List Text
  pub groups : List Text
  pub doctest_object : Option Text
  pub case_label : Option Text
  pub case_index : Option ℕ

-- `TestItem::default()`.
abbrev pub default_item : TestItem
default_item = record {
  name = [];
  module_path = [];
  file_path = none;
  line_number = none;
  display_name = none;
  expected_assertions = [];
  skip = none;
  todo = none;
  xfail = none;
  tags = [];
  groups = [];
  doctest_object = none;
  case_label = none;
  case_index = none;
}

-- `format!("{base}[{label}]")` where there is a label.
abbrev with_label : Text → Option Text → Text
with_label base none = base
with_label base (some label) = base ++ (codes "[" ++ (label ++ codes "]"))

abbrev id_base : TestItem → Option FilePath → Text
id_base t (some path) = path ++ (codes "::" ++ t.name)
id_base t none = t.module_path ++ (codes "::" ++ t.name)

unfoldable pub id : TestItem → Text
id t = with_label (id_base t t.file_path) t.case_label

unfoldable pub display_label : TestItem → Text
display_label t = with_label (unwrap_or t.display_name t.name) t.case_label

pub data FixturePer : Type 0 where
  per_test per_scope : FixturePer

abbrev pub constrains_scheduling : FixturePer → Bool
constrains_scheduling per_scope = true
constrains_scheduling per_test = false

pub record HookItem : Type 0 where
  pub name : Text
  pub module_path : Text
  pub per : FixturePer
  pub groups : List Text
  pub depends_on : List Text
  pub line_number : Option ℕ

pub data DiscoveryWarningKind : Type 0 where
  dynamic_imports testing_guard_has_else_branch dist_mode_upgrade : DiscoveryWarningKind

pub record DiscoveryWarning : Type 0 where
  pub file_path : FilePath
  pub kind : DiscoveryWarningKind
  pub message : Text
