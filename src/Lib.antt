-- ===== src/Lib.antt =====
-- Lilotane, an HTN planner that searches for plans with a SAT solver: a model of its data structures
-- and of the algorithms on them. The planner (src/algo/planner.cpp) unfolds the task network layer by
-- layer; a layer (src/data/layer.cpp) is a row of positions (src/data/position.cpp), and a position
-- holds the operators and facts that may occur there. Operators may have pseudo-constants among their
-- arguments, which stand for a set of constants; which substitutions of them are allowed is kept in
-- prefix trees (src/sat/literal_tree.h) inside constraints (src/data/substitution_constraint.h). The
-- encoding turns positions, trees and constraints into clauses for the solver
-- (src/sat/sat_interface.h), and the plan optimizer (src/sat/plan_optimizer.cpp) asks the solver again
-- for shorter plans.
--
-- What models what:
--   Sat/LiteralTree          src/sat/literal_tree.h: LiteralTree and its Node
--   Sat/BinaryAmo            src/sat/binary_amo.cpp: BinaryAtMostOne
--   Sat/Encoding             src/sat/encoding.cpp: the state and the interface with the solver; its
--                            children Equality encodeQConstEquality, OpConstraints and
--                            AtMostOne encodeOperationConstraints and encodeSubstitutionVars, Subtasks
--                            encodeSubtaskRelationships, QConstraints encodeQConstraints, QFacts
--                            encodeQFactSemantics, Unify and Effects encodeActionEffects; in most, Emitted has the clauses as a list
--                            and Meaning what they say; Emits and Rules have the rules for it, Ensures
--                            those for clauses with helper variables
--   Sat/Dnf2Cnf              src/sat/dnf2cnf.h: Dnf2Cnf::getCnf
--   Sat/OrderedSets          std::set of int and of sets of int
--   Sat/VariableDomain       src/sat/variable_domain.cpp: VariableDomain
--   Sat/VariableProvider     src/sat/variable_provider.h: VariableProvider
--   Sat/SatInterface         src/sat/sat_interface.h: addClause, appendClause, endClause, assume, solve
--   Sat/EncodingStatistics   src/sat/encoding_statistics.h: begin, end and the counters
--   Sat/PlanOptimizer        src/sat/plan_optimizer.cpp: findMinBySat, isEmptyAction, getPlanLength
--   Sat/Clauses              assignments and clauses, for the theorems
--   Data/Substitution        src/data/substitution.h and .cpp: Substitution
--   Data/Signature           src/data/signature.h and .cpp: USignature, Signature, TypeConstraint
--   Data/HtnOp               src/data/htn_op.cpp, src/data/action.cpp, src/data/fact_frame.h
--   Data/Reduction           src/data/reduction.cpp: Reduction without orderSubtasks
--   Data/OpTable             src/data/op_table.h: OpTable
--   Data/Position            src/data/position.h and .cpp: Position; its child Expansions has children and
--                            parents, Variables the propositional variables, Supports the heap tables
--   Data/Layer               src/data/layer.cpp: Layer
--   Data/SubstitutionConstraint   src/data/substitution_constraint.h: SubstitutionConstraint
--   Algo/ArgIterator         src/algo/arg_iterator.h and .cpp: ArgIterator
--   Algo/FactAnalysis        src/algo/fact_analysis.h: the reachability of facts
--   Algo/DominationResolver  src/algo/domination_resolver.cpp: getDominationStatus
--   Algo/Planner             src/algo/planner.cpp: addPrecondition's constraint, and the merging in
--                            addPreconditionsAndConstraints
--   Prelude                  shared names, lists, integers, equality, hash sets and hash maps
--
-- Conventions. A class is a record, a method a function from the state to the state; the functions keep
-- the methods' names. A method that has undefined behaviour or throws has an Option as its result. A
-- hash set is a list without repetitions and a hash map an association list, in the order in which
-- the container would be walked, so that the theorems hold for every order. `int` is an integer
-- without overflow: the numbers are indices, variables and sizes of what is held in memory; names and
-- variables are far below 2 ^ 31. Assertions are hypotheses where a theorem needs them.
--
-- The encoding. A method is a step from a state to a result and a state, or to nothing where `at` throws.
-- A clause is the list of its literals, whether the code adds it at once or literal by literal. The
-- clauses of a step depend on the variables that the state gives out; an environment names
-- the literals of all substitutions and equalities, and a theorem on a step is about every environment
-- that agrees with the state after the step, and about every assignment. Where a theorem reads
-- pseudo-constants as constants, its hypothesis is that of the substitutions of each by its domain
-- just one holds.
--
-- Bounds. A loop is recursion on its list, or on rounds. Rounds: for the search for a layer's position, as
-- many as positions; for the argument iterator, one more than combinations; for the merging of
-- constraints, as many as constraints; for the search for a shortest plan, one more than the
-- upper bound; for the conversion of a formula, as many as combinations, which the code counts. But for
-- the last one, the theorems on these loops show that the rounds are enough.
--
-- Parameters: the solver's answers and models (Sat/PlanOptimizer, with the hypothesis that it answers as
-- IPASIR describes it; Enumeration has one that does), what a plan's length is, the instance's q-constants, sorts and domains (Algo/ArgIterator,
-- Algo/DominationResolver, Sat/Encoding), the options
-- `p`, `tc` and `bamot` (Sat/Encoding), and the decodings of a precondition (Algo/Planner/Precondition).
--
-- Not modelled: of the encoding the frame axioms, the variables of operators and facts and the
-- branches for the SMT interface; the decoder, the instance
-- (src/data/htn_instance.cpp), instantiation, network traversal, pruning and the other parts of the
-- planner; output, parameters, logging and timers; the SMT interface, which writes text for another
-- solver; and the vendored hash maps, regular expressions and parser.
pub mod Prelude
pub mod Sat
pub mod Data
pub mod Algo
