-- ===== src/Question.antt =====
-- Questions and the type codes: include/QuestionType.hpp, include/DnsQuestion.hpp and
-- src/DnsQuestion.cxx.
pub mod Defs
pub mod Wire
