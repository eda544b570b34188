-- ===== src/Audit/Evaluator/Summary.antt =====
-- engine/evaluator.py: what the summary of a report counts.
use cloudops_guard.Prelude.{length, ℕ, List, [], ◌∷◌, ite, ◌+◌, ◌≡◌, arith, Option}
use cloudops_guard.Audit.Models.{
  critical, high, medium, low, medium, high, critical, ClusterSnapshot, total, AuditSummary,
  Finding, Severity,
}
use cloudops_guard.Audit.Evaluator.{
  all_findings, summarize, evaluate, summarize_from, count_severity,
}
use cloudops_guard.Prelude.Text.{Text}
use cloudops_guard.Ingestion.Models.{DateTime}

pub Severity-discrete : Discrete Severity
Severity-discrete = hlevel

-- the findings of a severity
abbrev pub of_severity : Severity → List Finding → ℕ
of_severity s [] = 0
of_severity s (f ∷ fs) = ite (Severity-discrete f.severity s) 1 0 + of_severity s fs

abbrev pub field_of : Severity → AuditSummary → ℕ
field_of critical s = s.critical
field_of high s = s.high
field_of medium s = s.medium
field_of low s = s.low

pub field-count_severity :
    (s t : Severity) (a : AuditSummary)
    → field_of s (count_severity t a) ≡ ite (Severity-discrete t s) 1 0 + field_of s a
unfolding count_severity Severity-discrete
field-count_severity s t a = grind arith

pub total-count_severity :
    (t : Severity) (a : AuditSummary) → total (count_severity t a) ≡ total a + 1
unfolding count_severity
total-count_severity t a = grind arith

field-summarize_from :
    (s : Severity) (fs : List Finding) (a : AuditSummary)
    → field_of s (summarize_from a fs) ≡ of_severity s fs + field_of s a
unfolding summarize_from
field-summarize_from s [] a = omega arith
field-summarize_from s (f ∷ fs) a = omega (
  arith,
  field-summarize_from s fs (count_severity f.severity a),
  field-count_severity s f.severity a,
)

total-summarize_from :
    (fs : List Finding) (a : AuditSummary) → total (summarize_from a fs) ≡ total a + length fs
unfolding summarize_from
total-summarize_from [] a = omega arith
total-summarize_from (f ∷ fs) a = omega (
  arith,
  total-summarize_from fs (count_severity f.severity a),
  total-count_severity f.severity a,
)

abbrev none_yet : AuditSummary
none_yet = record { critical = 0; high = 0; medium = 0; low = 0 }

-- In the report of `evaluate`, the summary has for each severity the number of the findings of that
-- severity, and its total is the number of findings.
pub evaluate-summary :
    (snapshot : ClusterSnapshot) (threshold : ℕ) (filter : Option Text) (now : DateTime)
    → let report = evaluate snapshot threshold filter now in
      ((s : Severity) → field_of s report.summary ≡ of_severity s report.findings)
      × (total report.summary ≡ length report.findings)
unfolding evaluate summarize
evaluate-summary snapshot threshold filter now =
    let fs = all_findings snapshot threshold now in
    (
      λ s. grind (arith, field-summarize_from s fs none_yet),
      omega (arith, total-summarize_from fs none_yet),
    )
