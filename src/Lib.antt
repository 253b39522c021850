-- ===== src/Lib.antt =====
-- The syntax tree of TraceQL: field expressions and pipelines, from their construction to their
-- evaluation, with the time ranges, counters and collectors of the engine that runs them.
--
-- The parts, and the files of the repository that they model:
-- - StaticType (traceql/enum_statics.go), Operator (traceql/enum_operators.go): the types and the
--   operators, as data types with the constants of the source in its order, and the tables on them.
--   isMatchingOperand and isMatchingArrayElement call one another; here they are unrolled two deep.
-- - Static (traceql/ast.go, type Static): values. The type tag and the scalar, byte and string
--   payloads become one constructor per type. Static/Append is Static.append.
-- - Attribute (traceql/ast.go, traceql/enum_attributes.go): attributes, scopes and intrinsics, with
--   the names that print and parse them.
-- - Regexp (internal/regexp/regexp.go): compiled patterns with their memo of answers, which holds at
--   most 1000; MatchString returns the new state with its answer.
-- - Optimizer (traceql/util.go, branchOptimizer): which operand of AND and OR to run first. The costs
--   that time.Since would give are read from a sequence, the clock.
-- - Expr (traceql/ast.go): field expressions. A unary operation is met as a value (`unary`) and
--   through a pointer (`unary_ref`), since type switches tell these apart.
-- - Execute (traceql/ast_execute.go, the execute methods): execution changes the expression (compiled
--   patterns, costs, exchanged operands), so `execute` returns a Run: the result, the expression that
--   is left and the rest of the clock. Execute/Values has the operators on two scalars
--   (binOpExecuteScalar), Execute/Arrays the loop over an array and the switch on the types.
--   Execute/Settled is the reference: the value of an expression without caches, costs and exchanges;
--   Transparent is about one execution, Patternless, Steady and Repeated about what an execution leaves.
-- - Validate (traceql/ast_validate.go) and Build (traceql/ast.go): the checks of field expressions, and
--   newBinaryOperation and newUnaryOperation, which fold what does not reference the span. Below
--   Validate, Results says what the operators make of values, Fits what goes with a type, Kept what an
--   execution leaves of an expression, and Typed puts these together.
-- - Rewrite (traceql/ast_rewriter.go): chains of OR and AND over one attribute become array
--   operations. Its children lead up to the theorem on the pass: Comparisons, Operands and Reads say
--   what a comparison means, Joined and Joins what joining two statics does, Rules that the four rules fit,
--   Plain, Sound and Pass lift this to expressions.
-- - Conditions (traceql/ast_conditions.go): what a filter asks of the storage layer.
-- - Grouping (traceql/engine_metrics.go): the aggregators of spans of the first stage, which share their
--   inner aggregators by pointers. Grouping/Output gives their series, Grouping/Steps the aggregators
--   within (with traceql/engine_metrics_functions.go). Grouping/Buffer and Values are about the
--   buffer, Stored about the store of aggregators, Found about the series that is found there, Grouped
--   about any sequence of calls, and Steps/Observed about the samples of the intervals.
-- - Combine (traceql/combine.go): search results and how two of a trace are combined. Search has the
--   combiners, Search/Position the binary search, Search/Taken and Added the lemmas for Search/Recent,
--   which says what the combiner of the most recent is left with.
-- - Series (traceql/engine_metrics.go): labels, time series and sets of them. Series/Queue is
--   container/heap as the code uses it, and Top is topk and bottomk (traceql/series_heap.go). Math is
--   the arithmetic between sets (traceql/ast_metrics_math.go), Stages the second stages of metrics
--   queries (traceql/ast_metrics.go). Maps, Greatest and the children of Top, Math and Stages have the
--   lemmas and what they lead to.
-- - Sampler (traceql/sampler.go): both samplers without their loggers. Sampler/Counts is about the
--   probabilistic sampler, Sampler/Adaptive about any sequence of calls of the adaptive one.
-- - TraceId (internal/util/traceid.go): trace and span ids as bytes and hex texts.
-- - Histogram (traceql/engine_metrics.go): power-of-two histograms and the bucket of a quantile.
-- - Range (traceql/engine_metrics.go): the range of a metrics query, its default step, alignment and
--   trimming, on uint64 nanoseconds; Range/Intervals has the interval mappers. A mapper with step 0,
--   which panics in Go, is no mapper here.
-- - Pipeline (traceql/ast.go): pipelines with their spanset and scalar expressions. Pipeline/Walk is the
--   rewriter's walk over them (traceql/ast_rewriter.go), Check their validation
--   (traceql/ast_validate.go), Extract their conditions in two passes (traceql/ast_conditions.go).
--   Evaluate has their evaluation (traceql/ast_execute.go) with the parts Spanset, Filter, Group and
--   Aggregates, where an expression has its settled value; Executing is the filter with the executions
--   as they are, and Executed compares the two; Copied has the lemmas on the copies that the filter
--   makes, Requested those on requests. The spans, the printer's names, the hash of map keys and the
--   order of maps are the parameter `Environment`.
-- - Buckets (traceql/util.go, limitedBucketSet): how many exemplars each part of a time range may
--   have. Buckets/Counts has its invariant.
-- - Collector (internal/collector/distinct_string_collector.go): the collector of distinct strings.
--   Each method holds the lock throughout, so it is one step on the state. Collector/Scoped is the
--   collector with scopes (internal/collector/scoped_distinct_string.go), Collector/Distinct that of any
--   values (internal/collector/distinct_value_collector.go), and Agrees compares the two.
--   Collector/Limits has the invariant of the first, Collector/Scopes that with scopes, Collector/Diffs
--   what Diff returns.
-- - Base: helpers that the components share. Tests: runs, and the theorems at concrete inputs.
--
-- The parser calls the constructors, then the rewriter, then the validation; the engine extracts the
-- conditions of the pipeline and evaluates it on the spansets that the storage returns.
--
-- Numbers: ints, durations, statuses and kinds are 64-bit patterns with wrap-around, floats the bits
-- of a float64. What the code takes from outside is the parameter `Runtime`: float64 operations,
-- regexp.Compile and the matcher of Prometheus. Texts are lists of byte codes. Recursion is structural
-- throughout; the bounds are the depth 2 of the matching of types, which takes one array type off with
-- each call, the 64 halvings of a uint64 in bit_length (Histogram), after which it is 0, and the
-- length of the slice for the binary search (Combine/Search), which halves it with each step.
--
-- Not modelled: the evaluators of metrics queries and their averages, histograms and comparisons, the
-- lexer and the parsers, the engine, the printer, the collector of metrics and generated code, for their
-- size. Nil slices are not told from empty ones, a spanset in a list is never nil, and results are
-- values, so a buffer is never shared with a result.
pub mod Base
pub mod Runtime
pub mod StaticType
pub mod Operator
pub mod Static
pub mod Attribute
pub mod Regexp
pub mod Optimizer
pub mod Expr
pub mod Execute
pub mod Validate
pub mod Build
pub mod Rewrite
pub mod Conditions
pub mod Collector
pub mod Buckets
pub mod Range
pub mod Pipeline
pub mod Sampler
pub mod TraceId
pub mod Histogram
pub mod Series
pub mod Combine
pub mod Grouping
pub mod Tests
