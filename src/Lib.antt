-- ===== src/Lib.antt =====
-- pyfix: a FIX engine, and the scripts of its documentation pages.
--
-- The development models two parts. The scripts of doc/build/html/_static make the search page of
-- the documentation work. The engine in pyfix/ numbers, seals, validates and stores messages.
--
-- SearchTools (doc/build/html/_static/searchtools.js):
--   SearchTools.Regex     the regular expressions C, V, mgr0, meq1, mgr1, s_v of the stemmer, with
--                         a matcher for the constructs they use
--   SearchTools.Stemmer   stemmer.stemWord, one function for each of its steps
--   SearchTools.Query     the first half of Search.query: the words of a query, stemmed and sorted into
--                         wanted and excluded ones
--   SearchTools.Index     the index of terms that searchindex.js holds
--   SearchTools.Terms     Search.performTermsSearch, loop by loop
--   SearchTools.Objects   Search.performObjectSearch, with the loop of Search.query around it
--   SearchTools.Display   the rest of Search.query: the sorted results and displayNextItem, with
--                         makeSearchSummary in Display.Summary; Display.Query composes the whole of Search.query
--   SearchTools.Start     Search.init, Search.loadIndex and Search.hasIndex
--   SearchTools.Page      the fields of Search over time: the late index, the query that waits for it
--                         and the pulsing dots, with the timers as a number
-- Underscore holds what these scripts call of underscore-1.3.1.js, as a record of operations with
-- their documented laws, and a model of that record. The lower case of a text is a parameter of
-- the query. An object with file names as its keys is a list of keys, in ascending order as
-- engines enumerate integer keys, with a function. The names that every JavaScript object inherits
-- ("constructor" and others) are not in the model of an index.
--
-- JQuery holds what the scripts ask of jQuery. A handler is the list of its calls in their order;
-- what a call does to the page is a parameter, with the documented behaviour of the calls that show
-- and hide. An animation is its end. The answer of the server to a request is an argument.
--
-- Doctools (doc/build/html/_static/doctools.js):
--   Doctools                jQuery.getQueryParameters, from which the search page has its query
--   Doctools.Highlight      jQuery.fn.highlightText, on a tree of nodes
--   Doctools.Browser        jQuery.uaMatch
--   Doctools.Translations   gettext, ngettext and addTranslations
--   Doctools.Documentation  the other functions of Documentation: togglers of the index, highlighted
--                           words, links of headlines, addresses
-- decodeURIComponent and the names that every object has are parameters.
--
-- Comments (doc/build/html/_static/websupport.js):
--   Comments           the order of comments (setComparator, sortComments), and
--                      handleVote with the arrows that it shows and hides
--   Comments.Cookie    initComparator, and how handleReSort reads and stores a choice; escape and
--                      unescape are parameters
--   Comments.Template  renderTemplate, with the three templates in Template.Texts
--   Comments.Options   opts, and the context of the popup
--   Comments.Div       createCommentDiv
--   Comments.Listing   appendComments, getChildren, and the list that insertComment and handleReSort
--                      leave; `$('#cd' + id)` is the first entry of the list with this id
--   Comments.Panels    show, hide, openReply, closeReply, the proposals, showError and autogrow.resize
--   Comments.Server    getComments, addComment, acceptComment, deleteComment and the end of handleVote,
--                      each with what its answer does
--   Comments.Links     initEvents, $.fn.comment and what happens when the page is ready
--   Comments.Autogrow  the timers of $.fn.autogrow
-- Array.sort is a stable insertion sort, which takes NaN for 0. The children that the server sends
-- are a tree; the page holds the same tree.
--
-- Sidebar (doc/build/html/_static/sidebar.js): the side bar, its button and its cookie. The cookies
-- of the browser are a list, in the order in which they were first set.
--
-- Config (pyfix/FIXConfig.py and the .js files of pyfix/examples/config): makeConfig and two
-- configurations. Whether dictionaries have a method has_key is a parameter.
--
-- Fix (pyfix/):
--   Fix.Decimal    numbers as text
--   Fix.Message    Field and Message of pyfix/FIXSpec.py: wire form, body length, check sum and the
--                  integrity checks
--   Fix.Validate   Message.validate, over the tables that parse_specification reads
--   Fix.Recno      the Berkeley databases, a parameter with a model
--   Fix.Session    Session.compile_message and Session.persist_and_advance of pyfix/Session.py, with
--                  the writes of pyfix/persistence/BerkeleyPersister.py; the session has a parser of its
--                  own, sp, from which persist_and_advance has the number of a message
--   Fix.Parser     FIXParser of pyfix/FIXParser.py: feed, with its loops in the order of the code, on a
--                  parser that is a record of its buffer, its fields and its count of bytes; and
--                  SynchronousParser in Parser.Synchronous. Parser.Sent says which messages can be sent
--   Fix.Resend     on_resend_request of pyfix/FIXProtocol.py, with the session above and a parser
--                  that is made anew for each list of details. Before a message is sent again it is
--                  printed with the format "10s"; whether that raises is the parameter can_format
--   Fix.Gaps       GapProcessing of pyfix/FIXProtocol.py, the other end of such a request; the messages
--                  that it hands to the next state at its end are a result. Gaps.receive hands possible
--                  duplicates to its on_msg one by one, up to the one that closes the last gap
--   Fix.Heartbeats the timers of FIXProtocol: heartbeats, their checks, test requests, and what
--                  clean_up_and_die cancels. Which messages compile_message accepts is the parameter
--                  compiles
-- A session is a record that each operation returns anew; `none` is an exception, and the parser's
-- exceptions are values. The sending time is an argument. The class of a field is its tag. What the
-- parser reads of the specification is a parameter (Grammar), and so is what `cancel` does to a call of
-- the Twisted reactor (Reactor). Everything that is printed is left out.
-- Calls of dictionaries that only Python 2 has, has_key and the sorting and slicing of items(), are
-- taken as they are meant in FIXProtocol.py.
--
-- Loops are structural recursion. The only fuel is that of Fix.Decimal.digits, one more than the
-- number, and each digit divides it by ten.
--
-- Not modelled: the copies of jQuery and underscore, the pages and XML files, the tests and
-- examples, and of the engine the states of logon and normal processing, logging off, the protocol
-- factories and applications, and the other persisters.
pub mod Base
pub mod JQuery
pub mod Underscore
pub mod SearchTools
pub mod Comments
pub mod Doctools
pub mod Sidebar
pub mod Fix
pub mod Config
