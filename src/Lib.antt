-- ===== src/Lib.antt =====
-- gokql: a local KQL engine over a directory of columnar files.
--
-- The catalog (pkg/catalog) knows the tables of a database and the extents, one file each, that hold
-- their rows; the engine (pkg/engine) runs queries over the rows and registers what it writes.
--
-- Files and what they model:
--   Base         names and lemmas that all parts share; `Bytes` (a Go string is its bytes), `Dict`
--                (Go's maps with string keys), `Int` (signed integers), `Result` (a value or an error),
--                `Search` (the functions of Go's strings package that search).
--   Types        pkg/types/types.go: column types and schemas; pkg/types/decimal.go: `Decimal`, with
--                its printing and parsing in `Decimal/Text`; `Order`, `DigitCount`, `Floor`,
--                `Rounding`, `Text/Digits` and `Text/RoundTrip` prove. `Value` is what an
--                `interface{}` of the source holds, with `CompareValues`; its child modules prove.
--                `Timespan` is the timespan branch of `FormatValue`, with
--                `formatTimespanTostring` of pkg/engine/kql_tostring.go; `Timespan/Agree` proves.
--   Catalog      pkg/catalog/catalog.go (`State`, `Ops`, `ExtentId`) and the pure parts of
--                pkg/catalog/discover.go (`Discover`); the other files prove. `Session` is a step
--                relation over the operations, with the ids that were allocated and not yet
--                registered.
--   Graph        pkg/engine/graph_index.go (`Index`: `csr`, `outEdges`, `inEdges`) and
--                pkg/engine/graph_reach.go (`Reach`: `reachabilityToTarget`), and the weak components
--                of pkg/engine/graph_components.go (`Components`: `markComponents`).
--   Engine       pkg/engine/topn.go (`Sort`: `buildSortSpec`, `less`; `Sort/Order` proves),
--                and pkg/engine/window.go (`Window`: `computeColumn`, and `prev` and `next` of
--                `windowAt`, given the values of the calls' arguments;
--                `Rewrite`: `rewriteExpr`, `containsWindow`, `valueAt` and `rowEvaluator`, given the
--                values of the window calls; their child modules prove);
--                pkg/engine/join.go (`Join`: `applyJoin` with the right side executed, `emit`,
--                `buildJoinSchema`, `joinKey`, `outputRows`; its child modules prove);
--                pkg/engine/string_ops.go with the term searches of pkg/engine/eval.go (`Strings`:
--                `stringOpMatch`, `compileStringMatcher`, `hasTerm` and its kin; `Strings/Terms` and
--                `Strings/Matchers` prove); `wildcardMatch` and
--                `buildUnionSchema` of pkg/engine/operators.go (`Wildcards`, `Union`;
--                `Wildcards/Greedy` and `Union/Names` prove); `distinctSet` of
--                pkg/engine/columnar_agg.go (`DistinctSet`; `DistinctSet/Counts` proves).
--   Query        the expression nodes of pkg/parser/ast.go (`Expr`).
--   Functions    pkg/engine/func_punycode.go (`Punycode`: `punycodeEncode`, `punycodeDecode`);
--                pkg/engine/func_bin.go (`Bin`: the long branch of `evalBin`); pkg/engine/func_net.go
--                (`Ipv4`: `ipv4RangeToCIDRList`). `Punycode/Delta`, `Bin/Floor` and
--                `Ipv4/Blocks` prove.
--   Gql          pkg/gql/lexer.go (`Lexer`: `lex`); `Gaps`, `Literals`, `Widths`,
--                `Scanners` and `Spans` prove.
--   Tests        runs at concrete inputs.
--
-- Conventions. An `int64` or `uint64` counter of the catalog is its 64-bit pattern, with the
-- wrap-around written out. An ordinal or index that is -1 in the source is `none`. A map is an
-- association list, whose order stands for the order in which Go happens to iterate. Operations
-- under a lock are single steps. Times are arguments. The `big.Int` of a decimal is an
-- exact integer; its scale is an `int32`, whose wrap-around is written out.
--
-- `Conversions` stands for what the language and the packages strconv and fmt define on floats and
-- texts: no law of it is assumed. The functions `lower`, `equal_fold` and `compile` stand for
-- `strings.ToLower`, `strings.EqualFold` and `regexp.Compile`; of `lower` one theorem assumes that a
-- text that is not empty does not become empty.
--
-- A node of an expression that is shared, not copied, is `none` where the source compares pointers.
--
-- The ranks of rows count at most the rows of a table, and are natural numbers. So are the ordinals,
-- offsets and edge numbers of a graph, which the source keeps in an `int32`: the two differ from 2^31
-- edges or nodes on. An expression node is never `nil`.
--
-- Two slices of a dictionary are the same where they start at the same address and are as long; what
-- stands at an address is not written to. A bitset is the list of its bits.
--
-- Bounds and fuel. Loops are structural recursions; the digits of an id are written with fuel 16,
-- which is enough for a 64-bit number. A search takes one round for each hop up to its bound. The
-- GQL lexer has one unit of fuel for each byte; a round takes one byte at least. The decimal digits
-- of n have n + 1 units of fuel, and n shrinks with each digit; so it is with the digits of a punycode
-- delta and the rounds of its bias. A punycode encoder places a code point or more in each round, and
-- the decoder takes a byte or more. The search for a root in the union-find has one unit of fuel more
-- than the node's number, since a parent is never above its node. The search for a free column name
-- tries one candidate more than there are names taken. A search for a term goes on behind each
-- occurrence, and has one unit of fuel more than the text has bytes. The blocks of an
-- address range have one unit of fuel for each address.
--
-- Not modelled: files and directories (only the list of paths given to `os.Remove` is kept), footers
-- of extents, locks and goroutines, case folding and white space beyond ASCII, the conversions
-- between decimals and floats, the columns kept for a window call that is asked for again, and the
-- evaluation of queries.
pub mod Base
pub mod Types
pub mod Catalog
pub mod Engine
pub mod Query
pub mod Functions
pub mod Gql
pub mod Graph
pub mod Tests
