-- ===== src/Lib.antt =====
-- Verification of FalconLink's linter, `build_support/cpplint.py`: the Python program that checks the C++
-- sources of the library against the style guide. Modelled is the state that a run keeps, the way a
-- report goes through suppressions and filters to the output, the preparation of a file's lines that
-- every check reads, the nesting of blocks, and the checks of style.
--
-- How the parts interact: the command line sets the filters and the verbosity of the one state; a file
-- is read into lines, its NOLINT comments and directives fill two tables; raw strings, multi-line
-- comments, strings and comments are taken out of the lines, in copies of one length; checks match
-- parentheses over these copies, keep the nesting of blocks under preprocessor directives, the state of
-- includes and that of the function that is being read, and call the error handler, which asks the
-- tables and the filters and then counts and prints.
--
-- The files and their code in `build_support/cpplint.py`:
--   Prelude, Dict     Python's strings (`List ℕ`, code points), str methods, dict and set
--   Regex             `re`: Match, Search and sub over a data type of expressions
--   Report            a call `error(filename, linenum, category, confidence, message)`
--   Nolint            ParseNolintSuppressions, ProcessGlobalSuppresions, ResetNolintSuppressions,
--                     IsErrorSuppressedByNolint and the lists of categories
--   IncludeState      _IncludeState
--   LintState         _CppLintState; LintState/JUnit has FormatJUnitXML
--   Emit              _ShouldPrintError and Error
--   FunctionState     _FunctionState
--   RawStrings        CleanseRawStrings
--   Comments          IsCppString, the multi-line comments, CleanseComments
--   CleansedLines     CleansedLines and _CollapseStrings
--   Expression        FindEndOfExpressionInLine, CloseExpression and their inverses
--   BlankLines        IsBlankLine and GetPreviousNonBlankLine
--   FileChecks        CheckForCopyright, GetIndentLevel, CheckForBadCharacters,
--                     CheckForMultilineCommentsAndStrings, CheckPosixThreading, CheckVlogArguments,
--                     CheckInvalidIncrement, IsMacroDefinition and IsForwardClassDeclaration
--   Extensions        the file extensions, from ProcessHppHeadersOption to GetNonHeaderExtensions
--   Includes          _DropCommonSuffixes and _ClassifyInclude, with os.path on POSIX
--   SameModule        FilesBelongToSameModule
--   HeaderGuard       PathSplitToList, GetHeaderGuardCPPVariable, CheckForHeaderGuard
--   Preprocessor      _PreprocessorInfo and NestingState.UpdatePreprocessor
--   Nesting           _BlockInfo, _ExternCInfo, _ClassInfo, _NamespaceInfo and NestingState:
--                     Nesting/Blocks has CheckBegin and CheckEnd, Nesting/Templates
--                     InTemplateArgumentList, Nesting/Update and Nesting/Braces the two halves of
--                     Update, Nesting/Files its calls for the lines of a file
--   Checks            CheckForNewlineAtEOF, and a module for each group of line checks:
--                     Checks/Calls CheckSpacingForFunctionCall, Checks/Lengths
--                     CheckForFunctionLengths, Checks/Comments CheckComment, Checks/Spacing
--                     CheckSpacing, Checks/Operators CheckOperatorSpacing, Checks/Parentheses
--                     CheckParenthesisSpacing and CheckCommaSpacing, Checks/Namespaces
--                     CheckForNamespaceIndentation, Checks/Width GetLineWidth, Checks/Sections
--                     IsDecltype and CheckSectionSpacing, Checks/Initializers _IsType and
--                     CheckBracesSpacing, Checks/Braces CheckBraces, Checks/Semicolons
--                     CheckTrailingSemicolon, Checks/Bodies CheckEmptyBlockBody, Checks/Macros
--                     FindCheckMacro and CheckCheck (Checks/Operands its expression), Checks/Tokens
--                     CheckAltTokens, Checks/Style CheckStyle, which calls most of the others
--   Examples          tests, and each theorem at a concrete input
-- A method that changes an object is a function on the record of its fields; a check gives the list of
-- the reports that it makes; an exception is `none`, or the constructor `value_error` of LintState.
--
-- Fuel: a `while` loop that is not a walk along a list runs on fuel. Each such function gets it from its
-- caller: `replace_raw_strings` and `collapse_quotes` one more than the length of the line, since every
-- round shortens what is left; `remove_comments` one more than the number of lines;
-- `path_split_loop` one more than the length of the path; `log2` the number itself; `namespaces` and
-- `consume_braces` one more than the length of the line, of which each round takes a letter;
-- `template_loop` the letters and line ends from its line on; `hide_operators` one more than the length
-- of the line, since each round hides a letter that is not `_`; `parse_expression` one more than the
-- length of the expression, of which each round takes a letter. A pattern that repeats goes on only
-- over text that gets shorter, so the matcher needs no fuel of its own beyond the length of the text.
--
-- Not modelled: word letters, digits and letter case outside ASCII; the cache of compiled patterns;
-- writing out XML, which is a parameter; rounding of float logarithms; files, processes and options;
-- the order in which Python goes through a set, which is here that of insertion. What FileInfo says
-- of a file (RepositoryName, FullName, Extension, BaseName) depends on the file system and is an
-- argument; what `unicodedata` says of a letter is the record `Unicode`, an argument too. In
-- CheckTrailingSemicolon a brace that is closed on line 0, which is a marker with no code, has no
-- result: there the linter would read the line before it. The other checks of cpplint.py (includes,
-- language, casts, C++11) and the run over a file, the wrappers of clang-format and clang-tidy, and the
-- C++ code of the repository (`falconlink`, `examples`, `test`, `third_party`) are outside of this
-- development.
pub mod Prelude
pub mod Regex
pub mod Dict
pub mod Report
pub mod Nolint
pub mod IncludeState
pub mod LintState
pub mod Emit
pub mod FunctionState
pub mod Comments
pub mod RawStrings
pub mod CleansedLines
pub mod Expression
pub mod BlankLines
pub mod FileChecks
pub mod Extensions
pub mod Includes
pub mod Preprocessor
pub mod Nesting
pub mod SameModule
pub mod HeaderGuard
pub mod Checks
mod Examples
