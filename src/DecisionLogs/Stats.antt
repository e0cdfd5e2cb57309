-- ===== src/DecisionLogs/Stats.antt =====
-- `DecisionLogRepository.list_by_user`, `list_recent_reviewed` and `count_by_decision_type`, and
-- `DecisionLogService.get_stats`.
use project_stock.Base.{
  ℕ, ◌+◌, ◌≤◌, ◌≡◌, refl, String, Bool, true, false, ◌&&◌, Option, none, some, List, [], ◌∷◌, ◌==◌,
  str_eq, arith, length, filter, take, is_some, inl, inr, Bool-cases, eq_iff, length-take, ap, sym,
  if◌then◌else◌,
}
use project_stock.Store.{where_rows, count_rows}
use project_stock.Store.Order.{order_by, offset_limit, newest_first, oldest_first}
use project_stock.DecisionLogs.{DecisionLog, DecisionLogs}

-- `DecisionLogRepository._apply_sort`
abbrev pub sort_order : String → ℕ × DecisionLog → ℕ × DecisionLog → Bool
sort_order sort =
    if str_eq sort "created_at"
    then oldest_first (λ (r : DecisionLog). r.created_at)
    else if str_eq sort "-created_at"
    then newest_first (λ (r : DecisionLog). r.created_at)
    else if str_eq sort "decided_at"
    then oldest_first (λ (r : DecisionLog). r.decided_at)
    else newest_first (λ (r : DecisionLog). r.decided_at)

abbrev pub is_of : ℕ → ℕ × DecisionLog → Bool
is_of user_id e = e.1.user_id == user_id

-- `DecisionLogService.list_decision_logs` with `DecisionLogRepository.list_by_user`
unfoldable pub list_decision_logs :
    ℕ → ℕ → Option ℕ → String → DecisionLogs → List (ℕ × DecisionLog)
list_decision_logs user_id offset limit sort t =
    offset_limit offset limit (order_by (sort_order sort) (where_rows (is_of user_id) t))

-- `DecisionLogService.count_decision_logs` with `DecisionLogRepository.count_by_user`
unfoldable pub count_decision_logs : ℕ → DecisionLogs → ℕ
count_decision_logs user_id t = count_rows (is_of user_id) t

-- one more row of a type, in the groups of `group_by`
abbrev pub add_to_group : String → List (String × ℕ) → List (String × ℕ)
add_to_group s [] = (s, 1) ∷ []
add_to_group s ((name, n) ∷ groups) =
    if str_eq name s then (name, n + 1) ∷ groups else (name, n) ∷ add_to_group s groups

abbrev pub group_types : List (ℕ × DecisionLog) → List (String × ℕ)
group_types [] = []
group_types ((i, r) ∷ rows) = add_to_group r.decision_type (group_types rows)

-- `DecisionLogRepository.count_by_decision_type`
unfoldable pub count_by_decision_type : ℕ → DecisionLogs → List (String × ℕ)
count_by_decision_type user_id t = group_types (where_rows (is_of user_id) t)

review_time : DecisionLog → ℕ
review_time r = elim r.reviewed_at [ some time ↦ time | none ↦ 0 ]

-- `DecisionLogRepository.list_recent_reviewed`
unfoldable pub list_recent_reviewed : ℕ → ℕ → DecisionLogs → List (ℕ × DecisionLog)
unfolding review_time
list_recent_reviewed user_id limit t = take limit (
    order_by (newest_first review_time)
      (where_rows (λ e. is_of user_id e && is_some e.1.reviewed_at) t))

abbrev pub sum_counts : List (String × ℕ) → ℕ
sum_counts [] = 0
sum_counts ((name, n) ∷ groups) = n + sum_counts groups

-- `DecisionLogStatsResponse`
pub record DecisionLogStats : Type 0 where
  pub decision_type_counts : List (String × ℕ)
  pub total : ℕ
  pub recent_reviewed : List (ℕ × DecisionLog)

-- `DecisionLogService.get_stats`; `RECENT_REVIEWED_LIMIT` is 5
unfoldable pub get_stats : ℕ → DecisionLogs → DecisionLogStats
get_stats user_id t =
    let counts = count_by_decision_type user_id t in
    record {
      decision_type_counts = counts;
      total = sum_counts counts;
      recent_reviewed = list_recent_reviewed user_id 5 t;
    }

-- the count under a type
abbrev pub count_of : String → List (String × ℕ) → ℕ
count_of s [] = 0
count_of s ((name, n) ∷ groups) = if str_eq name s then n else count_of s groups

abbrev pub has_type : String → ℕ × DecisionLog → Bool
has_type s e = str_eq e.1.decision_type s

add_to_group-sum_counts :
    (s : String) (groups : List (String × ℕ))
    → sum_counts (add_to_group s groups) ≡ sum_counts groups + 1
add_to_group-sum_counts s [] = refl
add_to_group-sum_counts s ((name, n) ∷ groups) = ground (arith, add_to_group-sum_counts s groups)

group_types-sum_counts :
    (rows : List (ℕ × DecisionLog)) → sum_counts (group_types rows) ≡ length rows
group_types-sum_counts [] = refl
group_types-sum_counts ((i, r) ∷ rows) =
    omega (
      arith,
      add_to_group-sum_counts r.decision_type (group_types rows),
      group_types-sum_counts rows,
    )

same_as : (a b c : String) → str_eq a b ≡ true → str_eq a c ≡ str_eq b c
same_as a b c e = ap (λ s. str_eq s c) ((eq_iff a b).0 e)

differs : (a b c : String) → str_eq a b ≡ false → str_eq a c ≡ true → str_eq b c ≡ false
differs a b c e f = rw (← (eq_iff a c).0 f) (elim (Bool-cases (str_eq b a)) [
  | inl g ↦ ground (arith, e, (eq_iff a b).1 (sym ((eq_iff b a).0 g)))
  | inr g ↦ g
])

count_of-add_to_group :
    (s added : String) (groups : List (String × ℕ))
    → count_of s (add_to_group added groups)
      ≡ (if str_eq added s then count_of s groups + 1 else count_of s groups)
count_of-add_to_group s added [] = ground arith
count_of-add_to_group s added ((name, n) ∷ groups) =
    ground (arith, count_of-add_to_group s added groups, same_as name added s, differs name added s)

group_types-count_of :
    (s : String) (rows : List (ℕ × DecisionLog))
    → count_of s (group_types rows) ≡ length (filter (has_type s) rows)
group_types-count_of s [] = refl
group_types-count_of s ((i, r) ∷ rows) =
    ground (
      arith,
      count_of-add_to_group s r.decision_type (group_types rows),
      group_types-count_of s rows,
    )

-- The statistics give under each type the number of the user's decisions of that type, their total is the
-- number of all decisions of the user, and at most five recent reviews are listed.
pub get_stats_exact :
    (user_id : ℕ) (t : DecisionLogs)
    → ((s : String)
        → count_of s (get_stats user_id t).decision_type_counts
          ≡ length (filter (has_type s) (where_rows (is_of user_id) t)))
      × ((get_stats user_id t).total ≡ count_decision_logs user_id t)
      × (length (get_stats user_id t).recent_reviewed ≤ 5)
unfolding get_stats count_decision_logs count_by_decision_type list_recent_reviewed
get_stats_exact user_id t = (
  λ s. group_types-count_of s (where_rows (is_of user_id) t),
  group_types-sum_counts (where_rows (is_of user_id) t),
  omega (
    arith,
    length-take 5 (
        order_by (newest_first review_time)
          (where_rows (λ e. is_of user_id e && is_some e.1.reviewed_at) t)),
  ),
)
