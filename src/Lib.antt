-- ===== src/Lib.antt =====
-- lingdong, a generator of static blogs with a small web server.
--
-- One part of the program is its Markdown parser: src/parser/markdown.cpp reads a document line
-- by line, `parse` hands each line to a block parser by its first byte, and the block parsers
-- hand the text of a line to `parse_paragraph`, which cuts it into fragments.
--
--   Prelude: byte strings, lists, maps, and results that are a value or a fault: the exception
--   of `at` and `substr`, a read behind the end of a string, or too few rounds in the model.
--   Strings: src/utils/strings.hpp.
--   Markdown: src/parser/markdown.h and src/parser/markdown.cpp. Document has the data, Inline
--   the spans of a line, Lists the item lists, Tables the tables, Fences code and formulas,
--   Blocks the other blocks, Metadata the head, Parser the loop over the lines, and Html what is
--   printed.
--   RateLimit: src/utils/rate_limit.hpp, Bucket on one bucket, Clients on those of the clients.
--   BlockingQueue: src/utils/blocking_queue.hpp, Order on the sections of many threads.
--   Http: src/service/http/protocol.hpp and src/service/http/router.hpp. Response has what is
--   sent, Query the URL, Request what is received, Router who answers.
--   Server: the request buffer of src/service/server.hpp.
--   Maker: src/maker.hpp. Posts has a post and what it answers, Cache the cache file, Build the
--   choice between the cache and a new parse, Site the files and the lists that are generated, Make
--   the whole build.
--   M3u8: src/task/m3u8_to_mp4.cpp, its list, its tasks and its input file.
--   Executor: src/utils/executor.hpp over the blocking queue: Tasks on where the tasks are, Exit
--   on `join`, Progress on a worker that goes on.
--   HackerNews: the items of src/storage/hn_hnsw.hpp, and which of them
--   src/task/hacker_news.cpp stores; Embed has the threads that have their titles embedded, Index
--   the load of the stories of all versions, in the order in which all_versions gives these.
--   Rss: src/utils/rss.hpp.
--   Viewers: src/task/viewer_stat.cpp and the query of src/utils/mmdb.hpp.
--   Plugins: the diagrams of src/plugin/plantuml.hpp and src/plugin/mermaid.hpp, and
--   src/plugin/smms.hpp: Smms the uploads of a document, its child Api the requests and the files.
--   Simd: the sum of integers in src/utils/simd.hpp.
--   Web: src/web.hpp. Base64 and Feeds have a handler each, Web the search handler and the search
--   of src/storage/hn_hnsw.hpp.
--
-- The site generator asks the cache for each post, or parses its file and lets the plugins change
-- the elements; it then prints the document, and keeps what it printed in the cache file. What a
-- function of the class `Post` keeps for later is in the post that it returns.
--
-- The server puts the bytes of each peer into a `RequestBuffer`, which calls `probe` and then
-- `HttpRequest::parse`; a complete request goes to `MapBasedRouter::route`, which asks the rate
-- limiter and then a handler or the file system. The readings of the clock, the file system and
-- the handlers are arguments. The limiter and the router are run by one thread at a time; the
-- blocking queue by any number of threads, whose sections under the lock come in any order.
--
-- A function of the class `Markdown` takes the fields as a record and returns the new record. A
-- `std::string` is its list of bytes, and so is a view, behind whose last byte no read is defined.
-- `size_t` subtraction wraps around where the source relies on it. Loops that are no recursion over
-- a list take a number of rounds: the bytes of the line for the spans, the lines of the document
-- for the blocks and the lists, and one more. Results below show that these are enough.
--
-- The executor and the threads of `hn_story_to_emb` are steps on a state: each thread stands at a
-- place of its code, and a step takes one of them to where it next reads or writes what is
-- shared. `gen_task_seq` takes a round for each segment at most; the loop over the pages of the
-- upload history takes one for each page. The wait of the load of the index for its tasks is looked
-- at when all of them are done: it ends at once, or never.
--
-- Not modelled: the templates of the site generator, the copying of its assets, the other web
-- handlers, the task scheduler, the directories of the versions, the calls of hnswlib, sqlite,
-- libuv, ffmpeg and the network. What absl, inja, tinyxml2, libmaxminddb, the JSON library and
-- the platform do are fields of records (`Library`, `Platform`, `Output`, `Xml`, `GeoSource`,
-- `Tools`, `Outside`, `Service`, `Engine`, `Json`, `Coding`, `Database`), which are arguments of what calls
-- them. Logging is left out.
pub mod Prelude
pub mod Strings
pub mod Markdown
pub mod RateLimit
pub mod BlockingQueue
pub mod Http
pub mod Server
pub mod Maker
pub mod M3u8
pub mod Executor
pub mod HackerNews
pub mod Rss
pub mod Viewers
pub mod Plugins
pub mod Simd
pub mod Web
