-- ===== src/Lib.antt =====
-- BitcoinX creates, builds and runs blockchain applications in containers, publishes their
-- networks over IPFS, and joins networks of others. A command loads the manifest of a project,
-- allocates ports, starts the discovery server and a node; the node initialises its chain once,
-- updates its configuration, publishes its network, and then watches its server, announces itself
-- and dials the peers that it finds until it is stopped.
--
-- Which file models which part:
--   Ports        config/portmapper.go: AllocatePorts, portRangeAvailable. The network is a
--                parameter.
--   Config       config/config.go: the places of all files.
--   GoPath       Go's path.Join and path.Clean, as documented.
--   Files        the calls of os and ioutil on files, as a parameter, with what they guarantee.
--   Project      project/project.go: New, Save, Validate, Parse, Load. YAML is a parameter.
--   Builder      builder/parser.go (Parser, and Scan for its use of Fscanf) and builder/builder.go
--                (Build, and Race for the process, the parser and the log beside each other).
--   Ui           ui/ui.go: ConsoleWidth and Live (Live, over the runes of Runes) and the messages
--                (Message); ui/tree.go (Tree).
--   Httpfs       httpfs/utils.go: Walk, ReadFile.
--   Assets       templates/assets_vfsdata.go: the file system of the templates, its table (Table),
--                its directories (Folder), compressed files (Stream) and files of any kind (File), and
--                what Walk gets from it (Tree).
--   Discovery    discovery/discovery.go: Publish, Join and WriteManifest (Network), Peers (Peers),
--                and New, Start, Stop, dhtConnect, Announce (Server). IPFS and libp2p are parameters.
--   Util         util/run.go: RunWithFD (Run) and its goroutine that stops a command (Watch), the
--                arguments of docker and the wait for a loaded image (Docker).
--   Node         node/init.go, node/genesis.go and init of node/node.go (Init, Update); Start and
--                createNetwork of node/node.go with node/explorer.go (Start), its goroutines
--                (Group, with the server in Group/Server) and their end by Stop (Stop); start and
--                wait of node/server.go (Serve); the loops of both (Discover), dialSeeds (Dial), one
--                round of discoverPeers with its calls (Visit).
--   Cmd          cmd/: the fatal errors and the paths of cmd/utils.go (Env), create.go (Create),
--                start.go, join.go and build.go (Launch), the end of start and join (Wait), cli.go
--                and the colours of root.go (Cli), the commands with their arguments and flags as
--                they are declared (Flags), and Run of each of them, PersistentPreRun and Execute of
--                root.go, with main.go (Execute).
--   System       several nodes: what one of them publishes (Genesis, and CommandLine for the lines of
--                commands) or announces (Peers) and what reaches another.
--   Base         texts, lines as bufio.Scanner delivers them, decimals, int64, errors and results.
--
-- A text is its list of bytes. A function that calls outside takes a world and returns a result
-- and the world after it; errors are values, in which panics and the end of the program have
-- constructors of their own. A Go map over which the code ranges is a list in the order of the
-- loop, a list for each run of the loop where orders are compared, or the quotient of such lists that
-- forgets the order. The goroutine of a running command is a relation of steps, in which the
-- process, the timer and the context move freely. The loops of a node take the list of what happens
-- in each round, so they are structural recursions, and no result means that the loop is still
-- running. The search for ports runs on 1638 units of fuel, one more than it has candidates, the
-- loops on a line of the terminal on one more than the bytes of the line or the columns, and the
-- reading of a file on more than its bytes. On a network that is called steady it does not change whether
-- a port can be listened to and whether somebody answers on it.
--
-- Goroutines that run together are relations of steps (Util.Watch, Util.Run, Builder.Race,
-- Node.Serve, Node.Serve.Wait, Node.Group, Node.Group.Server, Node.Stop, Cmd.Wait): any of them
-- may move next, a step says what it changes, and what its code has met is an argument. The error
-- group of `Start` is a parameter. `ui.Fatal` is the error `exit`, which no caller handles. The
-- templates lie at most three levels below their root, so four levels of `dir_at` hold them all.
--
-- Not modelled: what cobra does with a line, which is a parameter with the laws of its
-- documentation; version/; the generator of the templates and the bytes of its files; the text that
-- `create` prints at its end; and the vendored packages, of which the calls are parameters.
pub mod Base
pub mod GoPath
pub mod Ports
pub mod Config
pub mod Files
pub mod Project
pub mod Builder
pub mod System
pub mod Ui
pub mod Discovery
pub mod Util
pub mod Node
pub mod Assets
pub mod Cmd
pub mod Httpfs
