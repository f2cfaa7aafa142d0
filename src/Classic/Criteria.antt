-- ===== src/Classic/Criteria.antt =====
-- plugins/format/classic/classic-path-resolve.c: the text of the criteria, `idmef_criteria_t`.
-- The text of one criterion is an interface to `requiemdb_sql_build_criterion_string` of
-- src/requiemdb-sql.c, over the state of the connection that escapes its value.
pub mod Meaning
use librequiemdb.Base.{Bool, true, false, [], ◌∷◌, ◌++◌, if◌then◌else◌, Bytes, codes}
use librequiemdb.Error.{Result, ok, err}
use librequiemdb.Strings.{Strings}
use librequiemdb.Idmef.{Paths}
use librequiemdb.Classic.Join.{Join}
use librequiemdb.Classic.Resolve.{in_where, resolve}

-- `idmef_criteria_t`: a criterion, what is linked to it by AND and by OR; `absent` is NULL.
pub data Criteria (C : Type 0) : Type 0 where
  absent : Criteria C
  linked : C → Criteria C → Criteria C → Criteria C

abbrev pub is_present : {C : Type 0} → Criteria C → Bool
is_present absent = false
is_present (linked c x y) = true

-- The criteria of librequiem and `requiemdb_sql_build_criterion_string`, which is given the field,
-- the criterion and the output.
pub record Builder (P : Type 0) : Type 1 where
  pub Criterion : Type 0
  pub State : Type 0
  pub path : Criterion → P
  pub build : Bytes → Criterion → Bytes → State → Result Bytes × State

module _ (str : Strings) (paths : Paths) (b : Builder paths.Path') where
  -- The join and the connection.
  abbrev pub Env : Type 0
  Env = Join paths.Path' × b.State

  -- `if ( ret < 0 ) return ret`
  abbrev pub and_then : Env × Result Bytes → (Bytes → Env → Env × Result Bytes) → Env × Result Bytes
  and_then (e, err x) k = (e, err x)
  and_then (e, ok out) k = k out e

  abbrev pub write : Bytes → Bytes → Env → Env × Result Bytes
  write text out e = (e, str.cat out text)

  unfoldable pub built : b.Criterion → Bytes → Env × Result Bytes → Env × Result Bytes
  built c out (e, err x) = (e, err x)
  built c out ((j, st), ok field) = let (r, st') = b.build field c out st in ((j, st'), r)

  abbrev pub resolved : b.Criterion → Env → Env × Result Bytes
  resolved c (j, st) = let (j', r) = resolve str paths (b.path c) in_where j [] in ((j', st), r)

  -- `classic_path_resolve_criterion`
  unfoldable pub resolve_criterion : b.Criterion → Bytes → Env → Env × Result Bytes
  unfolding built
  resolve_criterion c out e = built c out (resolved c e)

  -- the three parts that a link brings
  unfoldable pub when : Bool → (Bytes → Env → Env × Result Bytes) → Bytes → Env → Env × Result Bytes
  when true k out e = k out e
  when false k out e = (e, ok out)

  unfoldable pub conjunction : (Bytes → Env → Env × Result Bytes) → Bytes → Env → Env × Result Bytes
  conjunction more out e = and_then (write (codes " AND ") out e) more

  unfoldable pub disjunction : (Bytes → Env → Env × Result Bytes) → Bytes → Env → Env × Result Bytes
  disjunction more out e =
      and_then (and_then (write (codes ") OR (") out e) more) (write (codes "))"))

  -- `classic_path_resolve_criteria`, which does nothing for NULL, as it is not called for it.
  unfoldable pub resolve_criteria : Criteria b.Criterion → Bytes → Env → Env × Result Bytes
  unfolding when conjunction disjunction resolve_criterion
  resolve_criteria absent out e = (e, ok out)
  resolve_criteria (linked c x y) out e =
      and_then
        (and_then (and_then (when (is_present y) (write (codes "((")) out e) (resolve_criterion c))
          (when (is_present x) (conjunction (resolve_criteria x))))
        (when (is_present y) (disjunction (resolve_criteria y)))
