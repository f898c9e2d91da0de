-- ===== src/Lib.antt =====
-- A verification library for the delivery of OpenStreetMap data in fwh_osm: the self-hosted
-- replication stream of the split planet, its maintenance, the gate that caps the fleet's
-- downloads, the update of cached extracts by diffs, the filter of places by population, the
-- filter of elements by type and tag, the road network with its shortest paths and the roads of a
-- zoom, tag queries, and the cancellation of child processes.
--
-- The program's parts, and where they are modelled:
--
-- * src/osm_geocoder/tools/_osm_tools/replication_publish.py is modelled under Replication.
--   Sequence has `sequence_path`; State has `format_state` and `parse_state`, over code points;
--   Disk has the files of a region in the published tree (`state.txt`, `extract.state.txt`, the
--   diffs, the extract) and the functions that read them; Upstream has the calls of the planet's
--   replication server; Cut has `cut_diff_multi`; Publish has `publish`, where each write of a file
--   is a state of the tree, so that what an interruption leaves is one of them: `write_text` empties
--   a state file, which is one state, and writes it in one piece, which is the next; Extract has
--   `apply_published`, `stamp_extract` and `anchor`.
-- * src/osm_geocoder/tools/_osm_tools/planet_maintain.py is modelled in Planet: `update_master`,
--   `published_sequence` and `maintain`.
-- * src/osm_geocoder/tools/_osm_tools/download_gate.py is modelled under Gate. Store is the
--   interface of the MongoDB collection, with the effects that MongoDB documents; Slots has the
--   functions; the other modules prove what they promise, also under interleaved calls.
-- * src/osm_geocoder/tools/_osm_tools/pbf_update.py is modelled in PbfUpdate: `update_region` with
--   the cache entry, the local copy of a remote entry, and the sidecar.
-- * src/osm_geocoder/handlers/population/population_filter.py is modelled under Population: Places
--   has the place types, the operators and the tags, Parse has `parse_population`, Match the tests
--   and the words of a filter, Filter, Top and Stats the three functions on collections, and
--   Extract the node handler of `extract_places_with_population`.
-- * src/osm_geocoder/handlers/filters/osm_type_filter.py is modelled under OsmFilter: Elements
--   has the elements and their features, Scan the handler and `filter_pbf_by_type`; Direct is the
--   definition on the whole file that the two passes are compared with.
-- * src/osm_geocoder/tools/_osm_tools/cancellation.py is modelled in Cancel: `run_cancellable`
--   and the killing of the child's process group.
-- * src/osm_geocoder/handlers/roads/zoom_graph.py is modelled under Roads: Graph has `RoadGraph`,
--   Search its `shortest_path`, Ways the classes and scores of roads, Topology what
--   `TopologyHandler` collects and how it splits ways, and Topology.Chains `finalize`, which merges
--   segments into the edges of a graph. The rule for a car ferry is that of
--   src/osm_geocoder/tools/_osm_tools/ferry_access.py.
-- * src/osm_geocoder/handlers/roads/zoom_selection.py is modelled under Roads.Selection: Cells
--   has the cell costs, Greedy the passes of `select_edges`, Greedy.Zooms the loop over the zooms;
--   Corridors the runs of one road that are chosen as a whole, Backbone the repair by shortest
--   paths, Bridge the gaps of numbered routes, Prune the pruning of orphans, and Reveal the zoom
--   at which an edge is revealed. Floats are a parameter of `select_edges`, a record of their
--   operations, and so are the H3 cells of the edges and the sample of the anchors; the scores
--   and budgets are arguments.
-- * src/osm_geocoder/tools/_osm_tools/tag_query.py is modelled under Queries: Words and Expression
--   have `normalise` and `validate`, Region the search for the extract and `query_region`, where the
--   steps of osmium are a parameter.
--
-- Prelude has what they share: tests and lists over the native numbers, integers, results, and
-- texts as code points. Tests has runs at small inputs and the theorems at inputs that meet their
-- hypotheses.
--
-- The publisher extends the streams that `anchor` starts, and `apply_published` and the clients
-- consume them; `update_region` is such a client. The maintenance cycle advances the master that
-- the extracts are cut from.
--
-- Bounds and fuel. The loop of `cut_diff_multi` runs on `cut_fuel`, a passes-and-halvings bound
-- that is always enough. The loop of `acquire_slot` runs on as many turns as the caller gives; a
-- deadline makes its turn's number plus one enough; so does a reason to stop for the polls of
-- `run_cancellable`. The loop of `shortest_path` has a round for each push that the adjacency
-- lists allow, the loop that extends a chain one for each segment, the walks over a selection one
-- for each end of a selected edge, and the search for a root of the forest of a corridor one more
-- than there are edges; all are proved to be enough. All other loops are structural. Python's
-- integers are natural numbers where they are never negative, and ℤ where the code tests for it.
-- Lengths, class scores and coordinates of roads, which Python has as floats, are whole numbers
-- of a fixed unit, so rounding is not modelled.
--
-- Not modelled: the network, osmium, pyosmium and MongoDB (parameters with what the code relies
-- on), the environment and command lines, log lines, failing writes to the disk, the text of error
-- messages, and the parts of the repository that extract, render and route. The classes of
-- characters in texts are those of ASCII.
pub mod Prelude
pub mod Replication
pub mod Planet
pub mod Gate
pub mod PbfUpdate
pub mod Population
pub mod OsmFilter
pub mod Cancel
pub mod Queries
pub mod Roads
pub mod Tests
