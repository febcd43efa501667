-- ===== src/Exec.antt =====
-- exec/kubernetes_exec_manager.go and exec/command_resolver.go: the execs of a workspace.
pub mod Resolver
pub mod Manager
pub mod Kubeconfig
mod Tests
